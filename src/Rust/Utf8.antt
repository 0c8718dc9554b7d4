-- ===== src/Rust/Utf8.antt =====
-- `str::from_utf8`: the byte strings that are UTF-8.
use sandcamp.Base.{
  ℕ, Bool, true, false, ◌&&◌, Option, none, some, List, [], ◌∷◌, ltb, leb, ◌==◌, if◌then◌else◌,
  Bytes,
}

-- The ranges of the bytes that follow.
abbrev pub Ranges : Type 0
Ranges = List (ℕ × ℕ)

abbrev continued : Ranges → Ranges
continued rest = (128, 191) ∷ rest

-- What follows a first byte.
unfoldable pub utf8_lead : ℕ → Option Ranges
utf8_lead b =
    if ltb b 128
    then some []
    else if ltb b 194
    then none
    else if ltb b 224
    then some (continued [])
    else if b == 224
    then some ((160, 191) ∷ continued [])
    else if b == 237
    then some ((128, 159) ∷ continued [])
    else if ltb b 240
    then some (continued (continued []))
    else if b == 240
    then some ((144, 191) ∷ continued (continued []))
    else if ltb b 244
    then some (continued (continued (continued [])))
    else if b == 244
    then some ((128, 143) ∷ continued (continued []))
    else none

unfoldable pub utf8_from : Ranges → Bytes → Bool
utf8_from [] [] = true
utf8_from (_ ∷ _) [] = false
utf8_from ((low, high) ∷ pending) (b ∷ bs) = leb low b && leb b high && utf8_from pending bs
utf8_from [] (b ∷ bs) = elim (utf8_lead b) [ none ↦ false | some pending ↦ utf8_from pending bs ]

unfoldable pub is_utf8 : Bytes → Bool
is_utf8 s = utf8_from [] s
