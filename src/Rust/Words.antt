-- ===== src/Rust/Words.antt =====
-- `str::split_whitespace` and the first of `str::lines`, on the bytes of a text. The bytes of white
-- space outside ASCII begin with a byte that is no continuation, so that they are found as they
-- stand, also in a text that `from_utf8_lossy` mends elsewhere.
use sandcamp.Base.{
  ℕ, zero, suc, ◌-◌, Bool, ◌&&◌, ◌||◌, List, [], ◌∷◌, leb, ◌==◌, if◌then◌else◌, Bytes,
}
use sandcamp.Rust.Bytes.{lines}

abbrev is_ascii_space : ℕ → Bool
is_ascii_space c = c == 32 || (leb 9 c && leb c 13)

-- U+2000 to U+200A, U+2028, U+2029 and U+202F; U+205F; U+1680; U+3000.
abbrev is_long_space : ℕ → ℕ → ℕ → Bool
is_long_space a b c =
    (a == 226 && b == 128 && (leb 128 c && leb c 138 || c == 168 || c == 169 || c == 175))
    || (a == 226 && b == 129 && c == 159)
    || (a == 225 && b == 154 && c == 128)
    || (a == 227 && b == 128 && c == 128)

-- The number of bytes of the white space that a text begins with, or 0.
unfoldable pub white : Bytes → ℕ
white [] = 0
white (a ∷ []) = if is_ascii_space a then 1 else 0
white (a ∷ b ∷ []) =
    if is_ascii_space a then 1 else if a == 194 && (b == 133 || b == 160) then 2 else 0
white (a ∷ b ∷ c ∷ rest) =
    if is_ascii_space a
    then 1
    else if a == 194 && (b == 133 || b == 160)
    then 2
    else if is_long_space a b c
    then 3
    else 0

abbrev pub close : Bytes × List Bytes → List Bytes
close ([], words) = words
close (c ∷ w, words) = (c ∷ w) ∷ words

-- A byte by the length of the white space that begins with it, and what is found behind it.
abbrev pub add_byte : ℕ → ℕ → Bytes × List Bytes → Bytes × List Bytes
add_byte zero c (w, words) = (c ∷ w, words)
add_byte (suc _) c found = ([], close found)

-- The rest of a word, and the words behind it; `skipped` bytes of white space are left.
unfoldable pub scan_words : ℕ → Bytes → Bytes × List Bytes
scan_words skipped [] = ([], [])
scan_words (suc skipped) (c ∷ rest) = scan_words skipped rest
scan_words zero (c ∷ rest) = let n = white (c ∷ rest) in add_byte n c (scan_words (n - 1) rest)

unfoldable pub split_whitespace : Bytes → List Bytes
split_whitespace s = close (scan_words 0 s)

-- `next().unwrap_or_default()`
abbrev pub first_or_empty : List Bytes → Bytes
first_or_empty [] = []
first_or_empty (w ∷ _) = w

abbrev pub second_or_empty : List Bytes → Bytes
second_or_empty [] = []
second_or_empty (_ ∷ rest) = first_or_empty rest

unfoldable pub first_line : Bytes → Bytes
first_line s = first_or_empty (lines s)
