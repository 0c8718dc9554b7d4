-- ===== src/Base/Members.antt =====
-- The places of a list's elements.
use mathlib.Core.Path.{◌≡◌, refl}
use mathlib.Core.Logic.{◌⊎◌, inl, inr}
use mathlib.Core.List.{List, [], ◌∷◌, ◌++◌}
use sandcamp.Base.Lists.{In, here, there}

module _ {ℓ} {A : Type ℓ} where
  pub In-cases : (a x : A) (xs : List A) → In a (x ∷ xs) → (a ≡ x) ⊎ In a xs
  In-cases a x xs here = inl refl
  In-cases a x xs (there i) = inr i

  pub In-append-left : {a : A} {xs : List A} (ys : List A) → In a xs → In a (xs ++ ys)
  In-append-left ys here = here
  In-append-left ys (there i) = there (In-append-left ys i)

  pub In-append-right : {a : A} (xs : List A) {ys : List A} → In a ys → In a (xs ++ ys)
  In-append-right [] i = i
  In-append-right (x ∷ xs) i = there (In-append-right xs i)

  pub In-append-split : (a : A) (xs ys : List A) → In a (xs ++ ys) → In a xs ⊎ In a ys
  In-append-split a [] ys i = inr i
  In-append-split a (x ∷ xs) ys here = inl here
  In-append-split a (x ∷ xs) ys (there i) = elim (In-append-split a xs ys i) [
    | inl j ↦ inl (there j)
    | inr j ↦ inr j
  ]
