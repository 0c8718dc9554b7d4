-- ===== src/Rust/Int/Laws.antt =====
-- Printing a `u32` and parsing the digits gives the number back.
use sandcamp.Base.{
  ℕ, zero, suc, ◌+◌, ◌*◌, ◌/◌, ◌%◌, ◌<◌, ◌≤◌, ◌≡◌, ◌≢◌, refl, ◌∙◌, true, some, [], ◌∷◌, arith, ltb,
  inl, inr, Bool-cases, Bytes, all,
}
use sandcamp.Rust.Bytes.{is_ascii_digit}
use sandcamp.Rust.Int.{u32_max, parse_digits, parse_u32, digits_onto, print_u32}

abbrev ten_pow : ℕ → ℕ
ten_pow zero = 1
ten_pow (suc k) = 10 * ten_pow k

parse_digits-cons :
    (acc d : ℕ) (rest : Bytes)
    → d < 10
    → acc * 10 + d ≤ u32_max
    → parse_digits acc ((b'0' + d) ∷ rest) ≡ parse_digits (acc * 10 + d) rest
unfolding parse_digits is_ascii_digit
parse_digits-cons acc d rest h k = ground arith

parse_digits-digits_onto :
    (fuel n : ℕ) (rest : Bytes)
    → n < ten_pow fuel
    → n ≤ u32_max
    → 0 < fuel
    → parse_digits 0 (digits_onto fuel n rest) ≡ parse_digits n rest
unfolding digits_onto
parse_digits-digits_onto zero n rest h k p = absurd (omega arith)
parse_digits-digits_onto (suc fuel) n rest h k p = elim (Bool-cases (ltb n 10)) [
  | inl small ↦
      rw small (parse_digits-cons 0 n rest (ground arith) (omega arith) ∙ rw (zero_digit n))
  | inr big ↦ rw big (
      parse_digits-digits_onto fuel (n / 10) _ (omega arith) (omega arith) (ground arith)
      ∙ parse_digits-cons (n / 10) (n % 10) rest (omega arith) (omega arith)
      ∙ rw (div_mod n))
]
  where
    zero_digit : (n : ℕ) → 0 * 10 + n ≡ n
    zero_digit n = omega arith

    div_mod : (n : ℕ) → n / 10 * 10 + n % 10 ≡ n
    div_mod n = omega arith

digits_onto-all_digits :
    (fuel n : ℕ) (rest : Bytes)
    → all is_ascii_digit rest ≡ true
    → all is_ascii_digit (digits_onto fuel n rest) ≡ true
unfolding digits_onto all is_ascii_digit
digits_onto-all_digits zero n rest h = h
digits_onto-all_digits (suc fuel) n rest h =
    ground (arith, digits_onto-all_digits fuel (n / 10) ((b'0' + n % 10) ∷ rest))

digits_onto-ne_nil : (fuel n c : ℕ) (rest : Bytes) → digits_onto fuel n (c ∷ rest) ≢ []
unfolding digits_onto
digits_onto-ne_nil zero n c rest = λ h. cc
digits_onto-ne_nil (suc fuel) n c rest =
    ground (arith, digits_onto-ne_nil fuel (n / 10) (b'0' + n % 10) (c ∷ rest))

pub print_u32-all_digits : (n : ℕ) → all is_ascii_digit (print_u32 n) ≡ true
unfolding print_u32 all
print_u32-all_digits n = digits_onto-all_digits 10 n [] refl

pub print_u32-ne_nil : (n : ℕ) → print_u32 n ≢ []
unfolding print_u32
print_u32-ne_nil n = ground (arith, digits_onto-ne_nil 9 (n / 10) (b'0' + n % 10) [])

parse_u32_of_digits :
    (s : Bytes) → all is_ascii_digit s ≡ true → s ≢ [] → parse_u32 s ≡ parse_digits 0 s
unfolding parse_u32 all
parse_u32_of_digits [] h k = absurd (k refl)
parse_u32_of_digits (c ∷ []) h k = ground arith
parse_u32_of_digits (c ∷ d ∷ ds) h k = ground arith

parse_digits-print_u32 : (n : ℕ) → n ≤ u32_max → parse_digits 0 (print_u32 n) ≡ some n
unfolding print_u32
parse_digits-print_u32 n h =
    parse_digits-digits_onto 10 n [] (omega arith) h (omega arith) ∙ (unfold parse_digits in refl)

pub parse_u32-print_u32 : (n : ℕ) → n ≤ u32_max → parse_u32 (print_u32 n) ≡ some n
parse_u32-print_u32 n h =
    parse_u32_of_digits (print_u32 n) (print_u32-all_digits n) (print_u32-ne_nil n)
    ∙ parse_digits-print_u32 n h
