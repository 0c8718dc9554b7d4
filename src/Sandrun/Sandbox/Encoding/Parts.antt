-- ===== src/Sandrun/Sandbox/Encoding/Parts.antt =====
-- The length before each part keeps the identities of different parts apart.
use sandcamp.Base.{
  ℕ, zero, suc, ◌/◌, ◌%◌, ◌<◌, ◌≡◌, refl, sym, ◌∙◌, [], ◌∷◌, ◌++◌, arith, Bytes, ascii, length,
  length-append, append_assoc, append-nil,
}
use sandcamp.Sandrun.Sandbox.Encoding.{be_bytes, identity_part, overlay_identity, disk_identity}

pub append-cancel :
    (xs ys us vs : Bytes) → length xs ≡ length us → xs ++ ys ≡ us ++ vs → (xs ≡ us) × (ys ≡ vs)
append-cancel [] ys [] vs n e = (refl, e)
append-cancel [] ys (u ∷ us) vs n e = absurd (omega (arith, n))
append-cancel (x ∷ xs) ys [] vs n e = absurd (omega (arith, n))
append-cancel (x ∷ xs) ys (u ∷ us) vs n e =
    let rest : xs ++ ys ≡ us ++ vs = cc in
    let (a, b) = append-cancel xs ys us vs (omega (arith, n)) rest in
    let same : x ≡ u = cc in (cc, b)

-- Nothing is left of the number when so many bytes are cut off.
abbrev Fits : ℕ → ℕ → Type 0
Fits zero n = n ≡ 0
Fits (suc width) n = Fits width (n / 256)

length-be_bytes : (width n : ℕ) → length (be_bytes width n) ≡ width
unfolding be_bytes
length-be_bytes zero n = refl
length-be_bytes (suc width) n =
    let more = length-append (be_bytes width (n / 256)) (n % 256 ∷ []) in
    let so_far = length-be_bytes width (n / 256) in omega (arith, more, so_far)

be_bytes-injective :
    (width m n : ℕ) → Fits width m → Fits width n → be_bytes width m ≡ be_bytes width n → m ≡ n
unfolding be_bytes
be_bytes-injective zero m n a b e = cc
be_bytes-injective (suc width) m n a b e =
    let (front, last) =
      append-cancel (be_bytes width (m / 256)) (m % 256 ∷ []) (be_bytes width (n / 256))
        (n % 256 ∷ []) (length-be_bytes width (m / 256) ∙ sym (length-be_bytes width (n / 256)))
        e in
    let quotient = be_bytes-injective width (m / 256) (n / 256) a b front in
    let remainder : m % 256 ≡ n % 256 = cc in omega (arith, quotient, remainder)

-- The length of a byte string is a `u64`.
abbrev pub IsShort : Bytes → Type 0
IsShort value = length value < 18446744073709551616

IsShort→Fits : (n : ℕ) → n < 18446744073709551616 → Fits 8 n
IsShort→Fits n h = omega (arith, h)

identity_part-injective :
    (a b r s : Bytes)
    → IsShort a
    → IsShort b
    → identity_part a ++ r ≡ identity_part b ++ s
    → (a ≡ b) × (r ≡ s)
unfolding identity_part
identity_part-injective a b r s h k e =
    let e₁ =
      sym (append_assoc (be_bytes 8 (length a)) a r)
      ∙ e
      ∙ append_assoc (be_bytes 8 (length b)) b s in
    let (numbers, values) =
      append-cancel (be_bytes 8 (length a)) (a ++ r) (be_bytes 8 (length b)) (b ++ s)
        (length-be_bytes 8 (length a) ∙ sym (length-be_bytes 8 (length b))) e₁ in
    let same =
      be_bytes-injective 8 (length a) (length b) (IsShort→Fits (length a) h)
        (IsShort→Fits (length b) k) numbers in
    append-cancel a r b s same values

-- The same for a last part.
identity_part-last :
    (a b : Bytes) → IsShort a → IsShort b → identity_part a ≡ identity_part b → a ≡ b
identity_part-last a b h k e =
    (identity_part-injective a b [] [] h k
      (append-nil (identity_part a) ∙ e ∙ sym (append-nil (identity_part b)))).0

after_prefix : (p a b r s : Bytes) → p ++ a ++ r ≡ p ++ b ++ s → a ++ r ≡ b ++ s
after_prefix p a b r s e =
    (append-cancel p (a ++ r) p (b ++ s) refl (sym (append_assoc p a r) ∙ e ∙ append_assoc p b s)).1

-- Two overlay workspaces have the same identity only for the same overlay id and the same root, all
-- being shorter than 2^64 bytes: no id can be chosen so that it runs on into the path.
pub overlay_identity-injective :
    (id id' lower lower' : Bytes)
    → IsShort id
    → IsShort id'
    → IsShort lower
    → IsShort lower'
    → overlay_identity id lower ≡ overlay_identity id' lower'
    → (id ≡ id') × (lower ≡ lower')
unfolding overlay_identity
overlay_identity-injective id id' lower lower' h k m n e =
    let parts =
      after_prefix (ascii "sandrun-overlay-v1") (identity_part id) (identity_part id')
        (identity_part lower) (identity_part lower') e in
    let (first, second) =
      identity_part-injective id id' (identity_part lower) (identity_part lower') h k parts in
    (first, identity_part-last lower lower' m n second)

-- The same for the directories of disk mounts, which go by the target as well.
pub disk_identity-injective :
    (id id' lower lower' target target' : Bytes)
    → IsShort id
    → IsShort id'
    → IsShort lower
    → IsShort lower'
    → IsShort target
    → IsShort target'
    → disk_identity id lower target ≡ disk_identity id' lower' target'
    → (id ≡ id') × (lower ≡ lower') × (target ≡ target')
unfolding disk_identity
disk_identity-injective id id' lower lower' target target' h k m n i j e =
    let p = ascii "sandrun-disk-mount-v1" in
    let two =
      sym (append_assoc (p ++ identity_part id) (identity_part lower) (identity_part target))
      ∙ e
      ∙ append_assoc (p ++ identity_part id') (identity_part lower') (identity_part target') in
    let parts =
      after_prefix p (identity_part id) (identity_part id')
        (identity_part lower ++ identity_part target)
        (identity_part lower' ++ identity_part target') two in
    let (first, others) =
      identity_part-injective id id' (identity_part lower ++ identity_part target)
        (identity_part lower' ++ identity_part target') h k parts in
    let (second, last) =
      identity_part-injective lower lower' (identity_part target) (identity_part target') m n
        others in
    (first, second, identity_part-last target target' i j last)
