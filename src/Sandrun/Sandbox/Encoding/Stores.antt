-- ===== src/Sandrun/Sandbox/Encoding/Stores.antt =====
-- The directories that hold the writable layers of sandboxes are apart.
use sandcamp.Base.{
  ℕ, ◌/◌, ◌<◌, ◌≡◌, refl, ap, sym, ◌∙◌, Bool, true, false, Bool-cases, inl, inr, ==_iff, ◌==◌, [],
  ◌∷◌, ◌++◌, if◌then◌else◌, arith, Bytes, All,
}
use sandcamp.Rust.Path.{join, is_absolute, ends_open}
use sandcamp.Sandrun.Sandbox.Encoding.{overlay_identity, disk_identity, hex_digit, hex_lower}
use sandcamp.Sandrun.Sandbox.Encoding.Parts.{
  append-cancel, IsShort, overlay_identity-injective, disk_identity-injective,
}
use sandcamp.Sandrun.Sandbox.Encoding.Hex.{
  digit_value, from_hex, digit_value-hex_digit, IsByte, from_hex-hex_lower,
}

-- A digit is no slash.
hex_digit-slash : (n : ℕ) → n < 16 → (hex_digit n == b'/') ≡ false
unfolding hex_digit
hex_digit-slash n h = elim (Bool-cases (hex_digit n == b'/')) [
  | inr e ↦ e
  | inl e ↦ absurd (
      let slash : hex_digit n ≡ 47 = (==_iff (hex_digit n) 47).0 e in
      let zero' : 0 ≡ n = ap digit_value (sym slash) ∙ digit_value-hex_digit n h in
      let first : 48 ≡ 47 = ap hex_digit zero' ∙ slash in omega (arith, first))
]

hex_lower-relative : (value : Bytes) → All IsByte value → is_absolute (hex_lower value) ≡ false
unfolding is_absolute hex_lower
hex_lower-relative [] h = refl
hex_lower-relative (b ∷ rest) h = hex_digit-slash (b / 16) (omega (arith, h.0))

front-cancel : (xs ys zs : Bytes) → xs ++ ys ≡ xs ++ zs → ys ≡ zs
front-cancel xs ys zs e = (append-cancel xs ys xs zs refl e).1

join-cancel :
    (base a b : Bytes)
    → is_absolute a ≡ false
    → is_absolute b ≡ false
    → join base a ≡ join base b
    → a ≡ b
unfolding join
join-cancel base a b h k e = go (ends_open base) (rw (h, k) at e)
  where
    go :
        (ends : Bool)
        → (if ends then base ++ a else base ++ b'/' ∷ a)
          ≡ (if ends then base ++ b else base ++ b'/' ∷ b)
        → a ≡ b
    go true f = front-cancel base a b f
    go false f = let g : b'/' ∷ a ≡ b'/' ∷ b = front-cancel base (b'/' ∷ a) (b'/' ∷ b) f in cc

-- A digest of bytes.
abbrev pub IsDigest : (Bytes → Bytes) → Type 0
IsDigest digest = (text : Bytes) → All IsByte (digest text)

-- Two texts do not collide.
abbrev pub Tells : (Bytes → Bytes) → Bytes → Bytes → Type 0
Tells digest x y = digest x ≡ digest y → x ≡ y

store-cancel :
    (digest : Bytes → Bytes) (base x y : Bytes)
    → IsDigest digest
    → Tells digest x y
    → join base (hex_lower (digest x)) ≡ join base (hex_lower (digest y))
    → x ≡ y
store-cancel digest base x y d t e =
    let names =
      join-cancel base (hex_lower (digest x)) (hex_lower (digest y))
        (hex_lower-relative (digest x) (d x)) (hex_lower-relative (digest y) (d y)) e in
    t (
      sym (from_hex-hex_lower (digest x) (d x))
      ∙ (ap from_hex names ∙ from_hex-hex_lower (digest y) (d y)))

-- Two sandboxes have the same workspace for their writable layers only if their overlay ids and their
-- root file systems are the same, unless the digest of their identities collides. All are shorter
-- than 2^64 bytes.
pub overlay_identity-apart :
    (digest : Bytes → Bytes) (base id id' lower lower' : Bytes)
    → IsDigest digest
    → Tells digest (overlay_identity id lower) (overlay_identity id' lower')
    → IsShort id
    → IsShort id'
    → IsShort lower
    → IsShort lower'
    → join base (hex_lower (digest (overlay_identity id lower)))
      ≡ join base (hex_lower (digest (overlay_identity id' lower')))
    → (id ≡ id') × (lower ≡ lower')
overlay_identity-apart digest base id id' lower lower' d t h k m n e =
    overlay_identity-injective id id' lower lower' h k m n
      (store-cancel digest base (overlay_identity id lower) (overlay_identity id' lower') d t e)

-- Two disk mounts have the same directory only if overlay ids, root file systems and targets are the
-- same, unless the digest of their identities collides. All are shorter than 2^64 bytes.
pub disk_identity-apart :
    (digest : Bytes → Bytes) (base id id' lower lower' target target' : Bytes)
    → IsDigest digest
    → Tells digest (disk_identity id lower target) (disk_identity id' lower' target')
    → IsShort id
    → IsShort id'
    → IsShort lower
    → IsShort lower'
    → IsShort target
    → IsShort target'
    → join base (hex_lower (digest (disk_identity id lower target)))
      ≡ join base (hex_lower (digest (disk_identity id' lower' target')))
    → (id ≡ id') × (lower ≡ lower') × (target ≡ target')
disk_identity-apart digest base id id' lower lower' target target' d t h k m n i j e =
    disk_identity-injective id id' lower lower' target target' h k m n i j (
      store-cancel digest base (disk_identity id lower target) (disk_identity id' lower' target') d
        t e)
