-- ===== src/Campd/Spec/Text.antt =====
-- cmd/campd/src/spec.rs: the character classes of names, environment variables, probe paths and
-- mount paths.
pub mod Laws
use sandcamp.Base.{
  ℕ, Bool, true, false, not, ◌&&◌, ◌||◌, List, [], ◌∷◌, ◌==◌, leb, if◌then◌else◌, Bytes, ascii, all,
  length,
}
use sandcamp.Rust.Bytes.{is_ascii_alphabetic, is_ascii_alphanumeric, is_ascii_hexdigit, contains}
use sandcamp.Rust.Path.{path_eq, is_absolute, components, is_root_or_normal}

-- `b"-._~!$&'()*+,;=:@/?"`
abbrev pub origin_form_marks : Bytes
origin_form_marks = ascii "-._~!$&'()*+,;=:@/?"

-- The loop of `valid_http_origin_form`, on the bytes from `index` on. '%' takes two hex digits.
unfoldable pub origin_form_from : Bytes → Bool
origin_form_from [] = true
origin_form_from (c ∷ []) =
    if c == b'%' then false else is_ascii_alphanumeric c || contains c origin_form_marks
origin_form_from (c ∷ d ∷ []) =
    let rest = origin_form_from (d ∷ []) in
    if c == b'%'
    then false
    else if not (is_ascii_alphanumeric c || contains c origin_form_marks)
    then false
    else rest
origin_form_from (c ∷ d ∷ e ∷ s) =
    let after_escape = origin_form_from s in
    let rest = origin_form_from (d ∷ e ∷ s) in
    if c == b'%'
    then (if not (is_ascii_hexdigit d) || not (is_ascii_hexdigit e) then false else after_escape)
    else if not (is_ascii_alphanumeric c || contains c origin_form_marks)
    then false
    else rest

unfoldable pub valid_http_origin_form : Bytes → Bool
valid_http_origin_form [] = false
valid_http_origin_form (c ∷ s) = if c == b'/' then origin_form_from (c ∷ s) else false

-- `is_ascii_alphanumeric() || matches!(*value, b'_' | b'.' | b'-')`
unfoldable pub is_name_byte : ℕ → Bool
is_name_byte c = is_ascii_alphanumeric c || c == b'_' || c == b'.' || c == b'-'

unfoldable pub valid_name : Bytes → Bool
valid_name [] = false
valid_name (c ∷ s) = leb (length (c ∷ s)) 64 && is_ascii_alphanumeric c && all is_name_byte (c ∷ s)

unfoldable pub valid_user_name : Bytes → Bool
valid_user_name [] = false
valid_user_name (c ∷ s) =
    leb (length (c ∷ s)) 64 && (is_ascii_alphabetic c || c == b'_') && all is_name_byte (c ∷ s)

unfoldable pub is_environment_byte : ℕ → Bool
is_environment_byte c = is_ascii_alphanumeric c || c == b'_'

unfoldable pub valid_environment_name : Bytes → Bool
valid_environment_name [] = false
valid_environment_name (c ∷ s) = (is_ascii_alphabetic c || c == b'_') && all is_environment_byte s

unfoldable pub valid_path : Bytes → Bool → Bool
valid_path value allow_root =
    if contains 0 value
    then false
    else is_absolute value
      && (allow_root || not (path_eq value (ascii "/")))
      && all is_root_or_normal (components value)
