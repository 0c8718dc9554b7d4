-- ===== src/Rust/Path/Apart.antt =====
-- Two paths of which neither lies in the other, and lists of such paths.
use sandcamp.Base.{
  ◌≡◌, sym, ◌↔◌, Bool, false, ◌||◌, List, [], ◌∷◌, ◌++◌, arith, Bytes, All, Pairs, Bool-cases, inl,
  inr, append-nil, append_assoc,
}
use sandcamp.Rust.Path.{components, path_eq, starts_with}
use sandcamp.Rust.Path.Laws.{Extends, starts_with_iff, path_eq_iff}

abbrev pub Apart : Bytes → Bytes → Type 0
Apart p q = ¬ Extends (components p) (components q) × ¬ Extends (components q) (components p)

pub Apart-symm : (p q : Bytes) → Apart p q → Apart q p
Apart-symm p q h = (h.1, h.0)

-- The test that both programs make on a target and an earlier one.
abbrev pub clashes : Bytes → Bytes → Bool
clashes p q = path_eq p q || (starts_with p q || starts_with q p)

not_Extends : (p q : Bytes) → starts_with q p ≡ false → ¬ Extends (components p) (components q)
not_Extends p q h e = cc ((starts_with_iff q p).1 e)

starts_with-false :
    (p q : Bytes) → ¬ Extends (components p) (components q) → starts_with q p ≡ false
starts_with-false p q h = elim (Bool-cases (starts_with q p)) [
  | inl e ↦ absurd (h ((starts_with_iff q p).0 e))
  | inr e ↦ e
]

path_eq-false : (p q : Bytes) → ¬ Extends (components p) (components q) → path_eq p q ≡ false
path_eq-false p q h = elim (Bool-cases (path_eq p q)) [
  | inl e ↦ absurd (h ([], rw append-nil (sym ((path_eq_iff p q).0 e))))
  | inr e ↦ e
]

pub clashes_iff : (p q : Bytes) → (clashes p q ≡ false) ↔ Apart p q
clashes_iff p q = (
  λ h. (not_Extends p q (ground arith), not_Extends q p (ground arith)),
  λ h. ground (arith, starts_with-false p q h.0, starts_with-false q p h.1, path_eq-false p q h.0),
)

-- Each path of the second list is apart from all that stand before it, those of the first included.
abbrev pub Separate : List Bytes → List Bytes → Type 0
Separate before [] = Unit
Separate before (p ∷ ps) = All (Apart p) before × Separate (before ++ p ∷ []) ps

pub Separate-append :
    (before ps qs : List Bytes)
    → Separate before (ps ++ qs) ↔ (Separate before ps × Separate (before ++ ps) qs)
Separate-append before [] qs = rw append-nil (λ h. (tt, h), λ h. h.1)
Separate-append before (p ∷ ps) qs =
    let rest = Separate-append (before ++ p ∷ []) ps qs in
    rw (sym (append_assoc before (p ∷ []) ps))
      (λ h. ((h.0, (rest.0 h.1).0), (rest.0 h.1).1), λ h. (h.0.0, rest.1 (h.0.1, h.1)))

All-front : (P : Bytes → Type 0) (xs ys : List Bytes) → All P (xs ++ ys) → All P xs
All-front P [] ys h = tt
All-front P (x ∷ xs) ys h = (h.0, All-front P xs ys h.1)

All-back : (P : Bytes → Type 0) (xs ys : List Bytes) → All P (xs ++ ys) → All P ys
All-back P [] ys h = h
All-back P (x ∷ xs) ys h = All-back P xs ys h.1

-- Read from the point of an earlier path: it is apart from all the later ones.
Separate-later :
    (before : List Bytes) (x : Bytes) (after ps : List Bytes)
    → Separate (before ++ x ∷ after) ps
    → All (Apart x) ps
Separate-later before x after [] h = tt
Separate-later before x after (p ∷ ps) h = (
  Apart-symm p x (All-back (Apart p) before (x ∷ after) h.0).0,
  Separate-later before x (after ++ p ∷ []) ps
      (rw (append_assoc before (x ∷ after) (p ∷ [])) at h.1),
)

-- Separate lists are pairwise apart.
pub Separate→Pairs : (before ps : List Bytes) → Separate before ps → Pairs Apart ps
Separate→Pairs before [] h = tt
Separate→Pairs before (p ∷ ps) h =
    (Separate-later before p [] ps h.1, Separate→Pairs (before ++ p ∷ []) ps h.1)
