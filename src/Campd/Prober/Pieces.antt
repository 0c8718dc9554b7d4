-- ===== src/Campd/Prober/Pieces.antt =====
-- A response that comes in pieces, and its first line.
use sandcamp.Base.{
  ℕ, zero, suc, ◌≤◌, ◌≡◌, ◌⊎◌, ap, subst, inl, inr, refl, Bool, true, false, Option, none, some,
  List, [], ◌∷◌, ◌++◌, arith, ◌==◌, take, drop, is_empty, if◌then◌else◌, Bytes, length, All,
}
use sandcamp.Campd.Prober.{Net, add_before, before_newline}

-- A connection on which every call succeeds in time, with the pieces that are still to be read. A
-- piece that is longer than the room stays in part.
abbrev pub keep : Bytes → List Bytes → List Bytes
keep [] pieces = pieces
keep (c ∷ rest) pieces = (c ∷ rest) ∷ pieces

abbrev pub read_piece : ℕ → List Bytes → Option Bytes × List Bytes
read_piece room [] = (some [], [])
read_piece room (piece ∷ pieces) = (some (take room piece), keep (drop room piece) pieces)

abbrev pub connection : Net
connection = record {
  World = List Bytes;
  now = λ w. (0, w);
  sleep = λ n w. w;
  connect = λ port timeout w. (true, w);
  set_write_timeout = λ timeout w. (true, w);
  write_all = λ request w. (true, w);
  set_read_timeout = λ timeout w. (true, w);
  read = read_piece;
  send = λ success w. (true, w);
  cancelled = λ w. (false, w);
}

abbrev pub joined : List Bytes → Bytes
joined [] = []
joined (piece ∷ pieces) = piece ++ joined pieces

abbrev pub IsPiece : Bytes → Type 0
IsPiece piece = is_empty piece ≡ false

pub take-drop : (n : ℕ) (xs : Bytes) → take n xs ++ drop n xs ≡ xs
take-drop zero xs = refl
take-drop (suc n) [] = refl
take-drop (suc n) (x ∷ xs) = ap (λ ys. x ∷ ys) (take-drop n xs)

pub joined-keep :
    (rest : Bytes) (pieces : List Bytes) → joined (keep rest pieces) ≡ rest ++ joined pieces
joined-keep [] pieces = refl
joined-keep (c ∷ rest) pieces = refl

pub keep-IsPiece :
    (rest : Bytes) (pieces : List Bytes) → All IsPiece pieces → All IsPiece (keep rest pieces)
keep-IsPiece [] pieces h = h
keep-IsPiece (c ∷ rest) pieces h = (refl, h)

-- The part that has been read of a text with a first line: the line is in it, or a part of the line.
abbrev pub Part : Bytes → Bytes → Type 0
Part got line =
    (before_newline got ≡ some line) ⊎ ((before_newline got ≡ none) × (length got ≤ length line))

pub before_newline-Part :
    (got later line rest : Bytes)
    → before_newline line ≡ none
    → got ++ later ≡ line ++ 10 ∷ rest
    → Part got line
unfolding before_newline
before_newline-Part [] later line rest n e = inr (refl, omega arith)
before_newline-Part (c ∷ got) later [] rest n e = let same : c ≡ 10 = cc in inl (rw same refl)
before_newline-Part (c ∷ got) later (d ∷ line) rest n e =
    let same : c ≡ d = cc in
    let others : got ++ later ≡ line ++ 10 ∷ rest = cc in
    let not_end : (d == 10) ≡ false = other d (before_newline line) n in
    let n' : before_newline line ≡ none = more d (before_newline line) not_end n in
    elim (before_newline-Part got later line rest n' others) [
      | inl found ↦ inl (rw (same, not_end, found) refl)
      | inr (nothing, short) ↦ inr (rw (same, not_end, nothing) refl, omega (arith, short))
    ]
  where
    other :
        (d : ℕ) (o : Option Bytes)
        → (if d == 10 then some [] else add_before d o) ≡ none
        → (d == 10) ≡ false
    other d o h = go (d == 10) h
      where
        go : (b : Bool) → (if b then some [] else add_before d o) ≡ none → b ≡ false
        go true h = cc
        go false h = refl

    more :
        (d : ℕ) (o : Option Bytes)
        → (d == 10) ≡ false
        → (if d == 10 then some [] else add_before d o) ≡ none
        → o ≡ none
    more d none e h = refl
    more d (some x) e h =
        absurd (none_of (subst (λ b. (if b then some [] else add_before d (some x)) ≡ none) e h))
      where
        none_of : some (d ∷ x) ≡ none → ⊥
        none_of h = cc

pub take-take : (n : ℕ) (xs : Bytes) → take n (take n xs) ≡ take n xs
take-take zero xs = refl
take-take (suc n) [] = refl
take-take (suc n) (x ∷ xs) = ap (λ ys. x ∷ ys) (take-take n xs)
