-- ===== src/Campd/Spec/Text/Laws.antt =====
-- Mount paths and probe paths, described without the loops that check them.
use sandcamp.Base.{
  ℕ, ◌≡◌, ◌≢◌, refl, subst, ◌↔◌, ◌⊎◌, inl, inr, Bool, true, false, ◌||◌, List, [], ◌∷◌, arith, ◌==◌,
  Bytes, ascii, bytes_eq, bytes_eq_iff, all, any, All, Bool-cases,
}
use sandcamp.Rust.Bytes.{split_on, contains, is_ascii_alphanumeric, is_ascii_hexdigit}
use sandcamp.Rust.Path.{
  root_dir, add_segment, body_components, is_absolute, components, component_eq, same_components,
  path_eq, is_root_or_normal,
}
use sandcamp.Campd.Spec.Text.{
  origin_form_marks, origin_form_from, valid_http_origin_form, valid_path,
}

-- The parts between the slashes.
abbrev pub segments : Bytes → List Bytes
segments p = split_on b'/' p

abbrev pub IsParent : Bytes → Type 0
IsParent s = s ≡ ascii ".."

-- A segment that names something: neither empty nor ".".
abbrev pub IsName : Bytes → Type 0
IsName s = (s ≢ []) × (s ≢ ascii ".")

abbrev pub SomeName : List Bytes → Type 0
SomeName [] = ⊥
SomeName (s ∷ ss) = IsName s ⊎ SomeName ss

pub record IsCleanPath (p : Bytes) (allow_root : Bool) : Type 0 where
  pub absolute : is_absolute p ≡ true
  pub no_parent : All (λ s. s ≢ ascii "..") (segments p)
  pub below_root : allow_root ≡ false → SomeName (segments p)

all_normal_iff :
    (ss : List Bytes)
    → (all is_root_or_normal (body_components ss) ≡ true) ↔ All (λ s. s ≢ ascii "..") ss
unfolding all is_root_or_normal body_components add_segment
all_normal_iff [] = (λ _. tt, λ _. refl)
all_normal_iff (s ∷ ss) =
    let rest = all_normal_iff ss in
    let empty = bytes_eq_iff s [] in
    let dot = bytes_eq_iff s (ascii ".") in
    let dots = bytes_eq_iff s (ascii "..") in
    (
      λ h. (λ e. ground (arith, empty, dot, dots), rest.0 (ground arith)),
      λ h. ground (arith, empty, dot, dots, rest.1 h.1),
    )

no_body_iff : (ss : List Bytes) → (same_components (body_components ss) [] ≡ false) ↔ SomeName ss
unfolding same_components body_components add_segment
no_body_iff [] = (λ h. cc, λ h. absurd h)
no_body_iff (s ∷ ss) =
    let rest = no_body_iff ss in
    let empty = bytes_eq_iff s [] in
    let dot = bytes_eq_iff s (ascii ".") in
    (λ h. ground (arith, empty, dot, rest), λ h. ground (arith, empty, dot, rest))

absolute_components :
    (p : Bytes) → is_absolute p ≡ true → components p ≡ root_dir ∷ body_components (segments p)
unfolding components
absolute_components p h = rw h

root_components : components (ascii "/") ≡ root_dir ∷ []
unfolding components is_absolute split_on body_components add_segment bytes_eq
root_components = refl

is_root_iff :
    (p : Bytes) → is_absolute p ≡ true → (path_eq p (ascii "/") ≡ false) ↔ SomeName (segments p)
unfolding path_eq same_components component_eq
is_root_iff p h =
    rw (root_components, absolute_components p h)
      (unfold same_components in no_body_iff (segments p))

normal_components_iff :
    (p : Bytes)
    → is_absolute p ≡ true
    → (all is_root_or_normal (components p) ≡ true) ↔ All (λ s. s ≢ ascii "..") (segments p)
unfolding all is_root_or_normal
normal_components_iff p h =
    rw (absolute_components p h) (unfold all is_root_or_normal in all_normal_iff (segments p))

-- `valid_path` accepts exactly the paths that hold no NUL, begin with '/', have no ".." segment
-- and, where the root is excluded, name something below it. Doubled slashes and "." pass.
pub valid_path_iff :
    (p : Bytes) (allow_root : Bool)
    → (valid_path p allow_root ≡ true) ↔ ((contains 0 p ≡ false) × IsCleanPath p allow_root)
unfolding valid_path
valid_path_iff p allow_root = elim (Bool-cases (is_absolute p)) [
  | inr relative ↦ (λ h. ground arith, λ h. ground (arith, h.1.absolute))
  | inl absolute ↦ (
    λ h. (
      ground arith,
      record {
        absolute = absolute;
        no_parent = (normal_components_iff p absolute).0 (ground arith);
        below_root = λ e. (is_root_iff p absolute).0 (ground arith);
      },
    ),
    λ h. elim (Bool-cases allow_root) [
      | inl root ↦ ground (arith, (normal_components_iff p absolute).1 h.1.no_parent)
      | inr below ↦ ground (
        arith,
        (normal_components_iff p absolute).1 h.1.no_parent,
        (is_root_iff p absolute).1 (h.1.below_root below),
      )
    ],
  )
]

-- The bytes of an HTTP origin-form target: plain bytes, and '%' with two hex digits.
pub data OriginForm : Bytes → Type 0 where
  end : OriginForm []
  plain :
      (c : ℕ) {s : Bytes}
      → (is_ascii_alphanumeric c || contains c origin_form_marks) ≡ true
      → OriginForm s
      → OriginForm (c ∷ s)
  escape :
      (d e : ℕ) {s : Bytes}
      → is_ascii_hexdigit d ≡ true
      → is_ascii_hexdigit e ≡ true
      → OriginForm s
      → OriginForm (b'%' ∷ d ∷ e ∷ s)

percent_is_no_plain_byte : (is_ascii_alphanumeric b'%' || contains b'%' origin_form_marks) ≡ false
unfolding is_ascii_alphanumeric contains any
percent_is_no_plain_byte = refl

OriginForm-sound : (s : Bytes) → origin_form_from s ≡ true → OriginForm s
unfolding origin_form_from
OriginForm-sound [] h = end
OriginForm-sound (c ∷ []) h = plain c (ground arith) end
OriginForm-sound (c ∷ d ∷ []) h = plain c (ground arith) (OriginForm-sound (d ∷ []) (ground arith))
OriginForm-sound (c ∷ d ∷ e ∷ s) h = elim (Bool-cases (c == b'%')) [
  | inl percent ↦
      let same : b'%' ≡ c = ground arith in
      subst (λ (x : ℕ). OriginForm (x ∷ d ∷ e ∷ s)) same
        (escape d e (ground arith) (ground arith) (OriginForm-sound s (ground arith)))
  | inr other ↦ plain c (ground arith) (OriginForm-sound (d ∷ e ∷ s) (ground arith))
]

plain_byte_is_no_percent :
    (c : ℕ) → (is_ascii_alphanumeric c || contains c origin_form_marks) ≡ true → (c == b'%') ≡ false
plain_byte_is_no_percent c h = elim (Bool-cases (c == b'%')) [
  | inr other ↦ other
  | inl percent ↦ let same : c ≡ b'%' = ground arith in let e = percent_is_no_plain_byte in cc
]

plain_step :
    (c : ℕ) (s : Bytes)
    → (is_ascii_alphanumeric c || contains c origin_form_marks) ≡ true
    → origin_form_from s ≡ true
    → origin_form_from (c ∷ s) ≡ true
unfolding origin_form_from
plain_step c [] h r = ground (arith, plain_byte_is_no_percent c h)
plain_step c (d ∷ []) h r = ground (arith, plain_byte_is_no_percent c h)
plain_step c (d ∷ e ∷ s) h r = ground (arith, plain_byte_is_no_percent c h)

OriginForm-complete : {s : Bytes} → OriginForm s → origin_form_from s ≡ true
unfolding origin_form_from
OriginForm-complete end = refl
OriginForm-complete (plain c {s = s} h r) = plain_step c s h (OriginForm-complete r)
OriginForm-complete (escape d e h k r) = ground (arith, OriginForm-complete r)

-- `valid_http_origin_form` accepts exactly the targets that begin with '/' and consist of plain
-- bytes and complete percent escapes.
pub valid_http_origin_form_iff :
    (s : Bytes) → (valid_http_origin_form s ≡ true) ↔ ((is_absolute s ≡ true) × OriginForm s)
unfolding valid_http_origin_form is_absolute
valid_http_origin_form_iff [] = (λ h. cc, λ h. cc)
valid_http_origin_form_iff (c ∷ s) = (
  λ h. (ground arith, OriginForm-sound (c ∷ s) (ground arith)),
  λ h. ground (arith, OriginForm-complete h.1),
)
