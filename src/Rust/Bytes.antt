-- ===== src/Rust/Bytes.antt =====
-- Byte classes of `u8`, and splitting of a string at a byte (`str::split`, `str::lines`).
use sandcamp.Base.{
  ℕ, ◌≡◌, refl, Bool, true, false, ◌&&◌, ◌||◌, List, [], ◌∷◌, ◌++◌, arith, leb, ◌==◌, if◌then◌else◌,
  Bytes, any,
}

unfoldable pub is_ascii_digit : ℕ → Bool
is_ascii_digit c = leb b'0' c && leb c b'9'

unfoldable pub is_ascii_alphabetic : ℕ → Bool
is_ascii_alphabetic c = (leb b'a' c && leb c b'z') || (leb b'A' c && leb c b'Z')

unfoldable pub is_ascii_alphanumeric : ℕ → Bool
unfolding is_ascii_digit is_ascii_alphabetic
is_ascii_alphanumeric c = is_ascii_alphabetic c || is_ascii_digit c

unfoldable pub is_ascii_hexdigit : ℕ → Bool
unfolding is_ascii_digit
is_ascii_hexdigit c = is_ascii_digit c || (leb b'a' c && leb c b'f') || (leb b'A' c && leb c b'F')

-- `value.contains(c)` for an ASCII character.
unfoldable pub contains : ℕ → Bytes → Bool
unfolding any
contains c = any (λ x. x == c)

abbrev pub cons_head : ℕ → List Bytes → List Bytes
cons_head x [] = (x ∷ []) ∷ []
cons_head x (w ∷ ws) = (x ∷ w) ∷ ws

-- `value.split(c)`; there is always a first part.
unfoldable pub split_on : ℕ → Bytes → List Bytes
split_on c [] = [] ∷ []
split_on c (x ∷ xs) = let rest = split_on c xs in if x == c then [] ∷ rest else cons_head x rest

-- Joining with the separator undoes the split.
abbrev pub join_with : ℕ → List Bytes → Bytes
join_with c [] = []
join_with c (w ∷ []) = w
join_with c (w ∷ v ∷ ws) = w ++ c ∷ join_with c (v ∷ ws)

abbrev pub IsNonempty : List Bytes → Type 0
IsNonempty [] = ⊥
IsNonempty (_ ∷ _) = Unit

pub split_on-IsNonempty : (c : ℕ) (s : Bytes) → IsNonempty (split_on c s)
unfolding split_on
split_on-IsNonempty c [] = tt
split_on-IsNonempty c (x ∷ xs) = go (split_on c xs) (x == c)
  where
    go : (r : List Bytes) (b : Bool) → IsNonempty (if b then [] ∷ r else cons_head x r)
    go r true = tt
    go [] false = tt
    go (w ∷ ws) false = tt

join_with-cons_head :
    (c x : ℕ) (ws : List Bytes) → IsNonempty ws → join_with c (cons_head x ws) ≡ x ∷ join_with c ws
join_with-cons_head c x [] h = absurd h
join_with-cons_head c x (w ∷ []) h = refl
join_with-cons_head c x (w ∷ v ∷ ws) h = refl

join_with-nil :
    (c : ℕ) (ws : List Bytes) → IsNonempty ws → join_with c ([] ∷ ws) ≡ c ∷ join_with c ws
join_with-nil c [] h = absurd h
join_with-nil c (w ∷ ws) h = refl

pub join_with-split_on : (c : ℕ) (s : Bytes) → join_with c (split_on c s) ≡ s
unfolding split_on
join_with-split_on c [] = refl
join_with-split_on c (x ∷ xs) = ground (
  arith,
  join_with-split_on c xs,
  split_on-IsNonempty c xs,
  join_with-cons_head c x (split_on c xs),
  join_with-nil c (split_on c xs),
)

-- `str::lines`: the parts end after each '\n', which is dropped with a '\r' before it.
abbrev strip_cr : Bytes → Bytes
strip_cr [] = []
strip_cr (c ∷ []) = if c == 13 then [] else c ∷ []
strip_cr (c ∷ d ∷ rest) = c ∷ strip_cr (d ∷ rest)

-- The last part has no '\n' behind it: it is no line if it is empty, and it keeps its '\r'.
abbrev end_lines : List Bytes → List Bytes
end_lines [] = []
end_lines ([] ∷ []) = []
end_lines ((c ∷ w) ∷ []) = (c ∷ w) ∷ []
end_lines (w ∷ v ∷ ws) = strip_cr w ∷ end_lines (v ∷ ws)

unfoldable pub lines : Bytes → List Bytes
unfolding split_on
lines s = end_lines (split_on 10 s)
