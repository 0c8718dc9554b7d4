-- ===== src/Rust/Int.antt =====
-- `u32`: decimal digits out (`to_string`) and in (`parse::<u32>`).
pub mod Laws
use sandcamp.Base.{
  ℕ, zero, suc, ◌+◌, ◌*◌, ◌/◌, ◌%◌, ◌-◌, Option, none, some, [], ◌∷◌, ltb, ◌==◌, if◌then◌else◌,
  Bytes,
}
use sandcamp.Rust.Bytes.{is_ascii_digit}

abbrev pub u32_max : ℕ
u32_max = 4294967295

abbrev pub u64_max : ℕ
u64_max = 18446744073709551615

-- The digits after the sign: a wrong byte and an overflow both give `none`.
unfoldable pub parse_digits : ℕ → Bytes → Option ℕ
parse_digits acc [] = some acc
parse_digits acc (c ∷ cs) =
    let next = acc * 10 + (c - b'0') in
    let rest = parse_digits next cs in
    if is_ascii_digit c then (if ltb u32_max next then none else rest) else none

-- One leading '+' is accepted, and no '-'; there must be a digit.
unfoldable pub parse_u32 : Bytes → Option ℕ
unfolding parse_digits is_ascii_digit
parse_u32 [] = none
parse_u32 (c ∷ []) = if c == b'+' then none else parse_digits 0 (c ∷ [])
parse_u32 (c ∷ d ∷ ds) = if c == b'+' then parse_digits 0 (d ∷ ds) else parse_digits 0 (c ∷ d ∷ ds)

-- The last digit of a number comes last; `rest` is what has been written behind it.
unfoldable pub digits_onto : ℕ → ℕ → Bytes → Bytes
digits_onto zero n rest = rest
digits_onto (suc fuel) n rest =
    let more = digits_onto fuel (n / 10) ((b'0' + n % 10) ∷ rest) in
    if ltb n 10 then (b'0' + n) ∷ rest else more

-- Ten rounds print any `u32`.
unfoldable pub print_u32 : ℕ → Bytes
unfolding digits_onto
print_u32 n = digits_onto 10 n []
