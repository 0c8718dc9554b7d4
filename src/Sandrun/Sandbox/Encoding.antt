-- ===== src/Sandrun/Sandbox/Encoding.antt =====
-- cmd/sandrun/src/linux.rs: the bytes that name an overlay workspace and a disk mount, and the mount
-- options of an overlay.
pub mod Parts
pub mod Hex
pub mod Options
pub mod Stores
use sandcamp.Base.{
  ℕ, zero, suc, ◌/◌, ◌%◌, ◌==◌, ◌||◌, Option, none, some, List, [], ◌∷◌, ◌++◌, if◌then◌else◌, Bytes,
  ascii, length, get_elem?,
}

-- `to_be_bytes` of an integer of so many bytes.
unfoldable pub be_bytes : ℕ → ℕ → Bytes
be_bytes zero n = []
be_bytes (suc width) n = be_bytes width (n / 256) ++ n % 256 ∷ []

-- What `append_identity_part` appends: the length in eight bytes, and the value.
unfoldable pub identity_part : Bytes → Bytes
identity_part value = be_bytes 8 (length value) ++ value

unfoldable pub overlay_identity : Bytes → Bytes → Bytes
overlay_identity overlay_id lower =
    ascii "sandrun-overlay-v1" ++ identity_part overlay_id ++ identity_part lower

unfoldable pub disk_identity : Bytes → Bytes → Bytes → Bytes
disk_identity overlay_id lower target =
    ascii "sandrun-disk-mount-v1"
    ++ identity_part overlay_id
    ++ identity_part lower
    ++ identity_part target

abbrev pub hex_table : Bytes
hex_table = ascii "0123456789abcdef"

abbrev pub digit_or_zero : Option ℕ → ℕ
digit_or_zero none = 0
digit_or_zero (some c) = c

-- `HEX[n]`; the index of half a byte is never out of bounds.
unfoldable pub hex_digit : ℕ → ℕ
hex_digit n = digit_or_zero (get_elem? hex_table n)

unfoldable pub hex_lower : Bytes → Bytes
hex_lower [] = []
hex_lower (byte ∷ rest) = hex_digit (byte / 16) ∷ hex_digit (byte % 16) ∷ hex_lower rest

-- What `append_overlay_path` appends.
unfoldable pub escape_path : Bytes → Bytes
escape_path [] = []
escape_path (c ∷ rest) =
    let escaped = c ∷ escape_path rest in
    if c == b'\\' || c == b',' || c == b':' then b'\\' ∷ escaped else escaped

unfoldable pub overlay_options : Bytes → Bytes → Bytes → Bytes
overlay_options lower upper work =
    ascii "lowerdir="
    ++ escape_path lower
    ++ ascii ",upperdir="
    ++ escape_path upper
    ++ ascii ",workdir="
    ++ escape_path work
