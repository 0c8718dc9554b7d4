-- ===== src/Campd/Prober/Judges.antt =====
-- What a probe says of a response, however the response comes in pieces.
use sandcamp.Base.{
  ℕ, zero, suc, ◌+◌, ◌-◌, ◌≤◌, ◌<◌, ◌≡◌, ◌∙◌, ap, sym, subst, inl, inr, refl, Bool, true, false,
  Option, none, some, List, [], ◌∷◌, ◌++◌, append_assoc, arith, ◌==◌, ==_iff, take, drop, if-cases,
  Bytes, length, length-append, All,
}
use sandcamp.Campd.Spec.{Probe}
use sandcamp.Campd.Prober.{
  judge, before_newline, response_size, Outcome, remaining_until, if_left, if_done, read_further,
  after_read, at_most, read_response, http_probe,
}
use sandcamp.Campd.Prober.Pieces.{
  keep, read_piece, connection, joined, IsPiece, take-drop, joined-keep, keep-IsPiece, Part,
  before_newline-Part, take-take,
}

abbrev Says : Bool → Option Bool × List Bytes → Type 0
Says b out = out.0 ≡ some b

abbrev Again : Type 0
Again = Bytes → List Bytes → Option Bool × List Bytes

-- The text behind a line and a newline, and the line that comes first.
abbrev Line : Bytes → Bytes → List Bytes → Bytes → Type 0
Line line got pieces rest = got ++ joined pieces ≡ line ++ 10 ∷ rest

read_further-Says :
    (again : Again) (got : Bytes) (pieces : List Bytes) (line : Bytes)
    → length line < 128
    → Part got line
    → (before_newline got ≡ none → Says (judge line) (again got pieces))
    → Says (judge line) (read_further connection again got pieces (before_newline got))
unfolding read_further
read_further-Says again got pieces line l (inl found) h = rw found refl
read_further-Says again got pieces line l (inr (nothing, short)) h = rw nothing (
    if-cases (Says (judge line)) (length got == response_size) (some false, pieces)
      (again got pieces)
      (λ full. absurd (let n = (==_iff (length got) 128).0 full in omega (arith, n, l, short)))
      (λ _. h nothing))

-- One read of a piece.
after_read-Says :
    (again : Again) (got piece : Bytes) (c : ℕ) (pieces : List Bytes) (line rest : Bytes) (r : ℕ)
    → before_newline line ≡ none
    → length line < 128
    → All IsPiece pieces
    → got ++ ((c ∷ piece) ++ joined pieces) ≡ line ++ 10 ∷ rest
    → ((more : Bytes) (ps : List Bytes)
        → All IsPiece ps
        → Line line more ps rest
        → before_newline more ≡ none
        → length got < length more
        → Says (judge line) (again more ps))
    → Says (judge line) (
        after_read connection again got
          (at_most connection (suc r) (read_piece (suc r) ((c ∷ piece) ∷ pieces))))
unfolding after_read
after_read-Says again got piece c pieces line rest r n l h e k = rw (take-take r piece) (
    read_further-Says again more ps line l (before_newline-Part more (joined ps) line rest n whole)
      (λ nothing.
        k more ps (keep-IsPiece (drop r piece) pieces h) whole nothing (omega (arith, longer))))
  where
    more : Bytes
    more = got ++ c ∷ take r piece

    ps : List Bytes
    ps = keep (drop r piece) pieces

    longer : length more ≡ length got + suc (length (take r piece))
    longer = length-append got (c ∷ take r piece)

    parts : c ∷ (take r piece ++ (drop r piece ++ joined pieces)) ≡ (c ∷ piece) ++ joined pieces
    parts =
        ap (λ t. c ∷ t)
          (sym (append_assoc (take r piece) (drop r piece) (joined pieces))
            ∙ ap (λ t. t ++ joined pieces) (take-drop r piece))

    whole : more ++ joined ps ≡ line ++ 10 ∷ rest
    whole =
        append_assoc got (c ∷ take r piece) (joined ps)
        ∙ (ap (λ t. got ++ (c ∷ (take r piece ++ t))) (joined-keep (drop r piece) pieces)
            ∙ (ap (λ t. got ++ t) parts ∙ e))

if_left-some :
    (go : ℕ → List Bytes → Outcome connection) (n : ℕ) (w : List Bytes)
    → 1 ≤ n
    → if_left connection go (n, w) ≡ go n w
unfolding if_left
if_left-some go zero w h = absurd (omega (arith, h))
if_left-some go (suc n) w h = refl

if_done-true :
    (go : List Bytes → Outcome connection) (w : List Bytes) → if_done connection go (true, w) ≡ go w
unfolding if_done
if_done-true go w = refl

read_response-Says :
    (rounds deadline : ℕ) (got : Bytes) (pieces : List Bytes) (line rest : Bytes)
    → 1 ≤ deadline
    → before_newline line ≡ none
    → length line < 128
    → All IsPiece pieces
    → Line line got pieces rest
    → length got ≤ length line
    → 128 ≤ rounds + length got
    → Says (judge line) (read_response connection rounds deadline got pieces)
unfolding read_response remaining_until
read_response-Says zero deadline got pieces line rest d n l h e short many =
    absurd (omega (arith, many, short, l))
read_response-Says (suc rounds) deadline got pieces line rest d n l h e short many =
    rw
      (
        if_left-some
            (λ left w₁.
              if_done connection
                (λ w₂.
                  after_read connection (read_response connection rounds deadline) got
                    (at_most connection (128 - length got) (read_piece (128 - length got) w₂)))
                (true, w₁))
            (deadline - 0) pieces (omega (arith, d)),
        if_done-true
            (λ w₂.
              after_read connection (read_response connection rounds deadline) got
                (at_most connection (128 - length got) (read_piece (128 - length got) w₂)))
            pieces,
      )
      (subst
        (λ room. Says (judge line) (
          after_read connection (read_response connection rounds deadline) got
            (at_most connection room (read_piece room pieces))))
        (room (length got) (omega (arith, short, l)))
        (go
          (λ more ps i w x y.
            read_response-Says rounds deadline more ps line rest d n l i w
              (shorter more (joined ps) w x) (omega (arith, many, y)))
          pieces h e))
  where
    room : (m : ℕ) → m < 128 → suc (127 - m) ≡ 128 - m
    room m h = omega (arith, h)

    shorter :
        (more later : Bytes)
        → more ++ later ≡ line ++ 10 ∷ rest
        → before_newline more ≡ none
        → length more ≤ length line
    shorter more later w x = elim (before_newline-Part more later line rest n w) [
      | inl found ↦ absurd (none≢some (sym x ∙ found))
      | inr (nothing, s) ↦ s
    ]
      where
        none≢some : Path (Option Bytes) none (some line) → ⊥
        none≢some h = cc

    go :
        ((more : Bytes) (ps : List Bytes)
          → All IsPiece ps
          → Line line more ps rest
          → before_newline more ≡ none
          → length got < length more
          → Says (judge line) (read_response connection rounds deadline more ps))
        → (ps : List Bytes) → All IsPiece ps
        → Line line got ps rest
        → Says (judge line) (
            after_read connection (read_response connection rounds deadline) got (
              at_most connection (suc (127 - length got)) (read_piece (suc (127 - length got)) ps)))
    go k [] i w = absurd (
        let a = ap length w in
        let b = length-append got [] in
        let c = length-append line (10 ∷ rest) in omega (arith, a, b, c, short))
    go k ([] ∷ ps) i w = absurd (false≢true i.0)
      where
        false≢true : true ≡ false → ⊥
        false≢true h = cc
    go k ((c ∷ piece) ∷ ps) i w =
        after_read-Says (read_response connection rounds deadline) got piece c ps line rest
          (127 - length got) n l i.1 w k

-- What a probe says of a response depends on its bytes alone, not on the pieces in which they come:
-- if every call succeeds in time and the response has a first line of less than 128 bytes, the
-- answer is the judgement of that line.
pub http_probe-judge :
    (probe : Probe) (deadline : ℕ) (pieces : List Bytes) (line rest : Bytes)
    → 1 ≤ deadline
    → before_newline line ≡ none
    → length line < 128
    → All IsPiece pieces
    → joined pieces ≡ line ++ 10 ∷ rest
    → (http_probe connection probe deadline pieces).0 ≡ some (judge line)
unfolding http_probe remaining_until
http_probe-judge probe deadline pieces line rest d n l h e =
    let ends =
      read_response-Says 128 deadline [] pieces line rest d n l h e (omega arith) (omega arith) in
    let left : 1 ≤ deadline - 0 = omega (arith, d) in
    rw
      (
        if_left-some _ (deadline - 0) pieces left,
        if_done-true _ pieces,
        if_left-some _ (deadline - 0) pieces left,
        if_done-true _ pieces,
        if_done-true _ pieces,
      )
      ends
