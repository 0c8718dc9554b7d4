-- ===== src/Handoff/Checks.antt =====
-- What campd has checked of a sidecar passes sandrun's own checks.
use sandcamp.Base.{ℕ, ◌<◌, ◌≡◌, refl, Bool, true, false, ◌||◌, [], ◌∷◌, arith, ◌==◌, Bytes, all, ok}
use sandcamp.Rust.Bytes.{is_ascii_alphabetic, is_ascii_alphanumeric}
use sandcamp.Rust.Int.{u32_max, print_u32}
use sandcamp.Rust.Int.Laws.{parse_u32-print_u32, print_u32-all_digits, print_u32-ne_nil}
use sandcamp.Campd.Spec.Text as Text
use sandcamp.Campd.Spec.Text.{valid_path, valid_name, is_name_byte}
use sandcamp.Sandrun.Config as Config
use sandcamp.Sandrun.Config.{
  ConfigError, read_user_id, parse_user_id, is_user_byte, clean_absolute, validate_outer_path,
  validate_inner_path, check_pair, validate_targets_from,
}
use sandcamp.Sandrun.Args.{validate_overlay_id}

pub clean_absolute_of_valid :
    (p : Bytes) (root : Bool) → valid_path p root ≡ true → clean_absolute p root ≡ true
unfolding valid_path clean_absolute
clean_absolute_of_valid p root h = ground arith

pub outer_of_valid :
    (field p : Bytes) → valid_path p false ≡ true → validate_outer_path field p ≡ ok tt
unfolding validate_outer_path
outer_of_valid field p h = rw (clean_absolute_of_valid p false h)

pub inner_of_valid :
    (field p : Bytes) (root : Bool)
    → valid_path p root ≡ true
    → validate_inner_path field p root ≡ ok tt
unfolding validate_inner_path
inner_of_valid field p root h = rw (clean_absolute_of_valid p root h)

same_byte : (c : ℕ) → is_user_byte c ≡ is_name_byte c
unfolding is_user_byte is_name_byte
same_byte c = refl

same_bytes : (s : Bytes) → all is_user_byte s ≡ all is_name_byte s
unfolding all
same_bytes [] = refl
same_bytes (c ∷ s) = rw (same_byte c, same_bytes s)

first_byte : (c : ℕ) → (is_ascii_alphabetic c || c == b'_') ≡ true → is_name_byte c ≡ true
unfolding is_name_byte is_ascii_alphanumeric
first_byte c h = ground arith

-- The two programs accept the same user names.
pub valid_user_name_agrees : (s : Bytes) → Config.valid_user_name s ≡ Text.valid_user_name s
unfolding Config.valid_user_name Text.valid_user_name all
valid_user_name_agrees [] = refl
valid_user_name_agrees (c ∷ s) = ground (arith, same_bytes s, first_byte c)

pub parse_user_id-print_u32 :
    (option : Bytes) (id : ℕ) → id < u32_max → parse_user_id option (print_u32 id) ≡ ok id
unfolding parse_user_id read_user_id
parse_user_id-print_u32 option id h =
    ground (arith, parse_u32-print_u32 id, print_u32-all_digits id, print_u32-ne_nil id)

pub overlay_id_of_name : (name : Bytes) → valid_name name ≡ true → validate_overlay_id name ≡ ok tt
unfolding validate_overlay_id valid_name
overlay_id_of_name [] h = cc
overlay_id_of_name (c ∷ s) h = ground arith
