-- ===== src/Tests/Encoding.antt =====
-- The names of workspaces and the options of an overlay, at concrete paths.
use sandcamp.Base.{◌≡◌, refl, some, [], ◌∷◌, Bytes, ascii, arith}
use sandcamp.Sandrun.Sandbox.Encoding.{hex_digit, hex_lower, escape_path, overlay_options}
use sandcamp.Sandrun.Sandbox.Encoding.Stores.{IsDigest, overlay_identity-apart, disk_identity-apart}
use sandcamp.Sandrun.Sandbox.Encoding.Options.{read_options, read_options-overlay_options}

-- A path with every byte that is escaped.
abbrev odd_path : Bytes
odd_path = ascii "/a,b:c\\d"

escaped : escape_path odd_path ≡ ascii "/a\\,b\\:c\\\\d"
unfolding escape_path
escaped = refl

read_options-overlay_options_example :
    read_options (overlay_options odd_path (ascii "/u") odd_path)
    ≡ some (odd_path, ascii "/u", odd_path)
read_options-overlay_options_example = read_options-overlay_options odd_path (ascii "/u") odd_path

hex_of_bytes : hex_lower (0 ∷ 175 ∷ 255 ∷ []) ≡ ascii "00afff"
unfolding hex_lower hex_digit
hex_of_bytes = refl

-- A digest of one byte.
abbrev one_byte : Bytes → Bytes
one_byte text = 7 ∷ []

one_byte-IsDigest : IsDigest one_byte
one_byte-IsDigest text = (omega arith, tt)

overlay_identity-apart_example : (ascii "id" ≡ ascii "id") × (ascii "/root" ≡ ascii "/root")
overlay_identity-apart_example =
    overlay_identity-apart one_byte (ascii "/base") (ascii "id") (ascii "id") (ascii "/root")
      (ascii "/root") one_byte-IsDigest (λ e. refl) (omega arith) (omega arith) (omega arith)
      (omega arith) refl

disk_identity-apart_example :
    (ascii "id" ≡ ascii "id") × (ascii "/root" ≡ ascii "/root") × (ascii "/data" ≡ ascii "/data")
disk_identity-apart_example =
    disk_identity-apart one_byte (ascii "/base") (ascii "id") (ascii "id") (ascii "/root")
      (ascii "/root") (ascii "/data") (ascii "/data") one_byte-IsDigest (λ e. refl) (omega arith)
      (omega arith) (omega arith) (omega arith) (omega arith) (omega arith) refl
