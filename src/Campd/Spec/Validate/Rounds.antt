-- ===== src/Campd/Spec/Validate/Rounds.antt =====
-- The loops of `validate` over the sidecars and over the main processes, with their totals.
use sandcamp.Base.{
  ℕ, ◌+◌, ◌≤◌, ◌≡◌, ◌≢◌, refl, sym, ◌↔◌, List, [], ◌∷◌, ◌++◌, map, arith, Bytes, bytes_eq_iff, any,
  All, Pairs, Result, ok, ◌>>=◌, ◌>>◌, fold_each, >>=-eq-ok, then_iff,
}
use sandcamp.Rust.Int.{u64_max}
use sandcamp.Campd.Spec.{SpecError}
use sandcamp.Campd.Spec.Validate.{Totals}
use sandcamp.Campd.Spec.Validate.Common.{IsFresh, common, common_sound, common_complete}
use sandcamp.Campd.Spec.Validate.Lifecycle.{
  Declared, IsValidProcess, duration, services_of, advance,
}

abbrev pub advance_all : Totals → List Declared → Totals
advance_all t [] = t
advance_all t (d ∷ ds) = advance_all (advance t d) ds

abbrev pub total_duration : List Declared → ℕ
total_duration [] = 0
total_duration (d ∷ ds) = duration d + total_duration ds

abbrev pub total_services : List Declared → ℕ
total_services [] = 0
total_services (d ∷ ds) = services_of d.kind + total_services ds

pub advance_all-budget :
    (t : Totals) (ds : List Declared)
    → (advance_all t ds).startup_budget_ms ≡ t.startup_budget_ms + total_duration ds
advance_all-budget t [] = omega arith
advance_all-budget t (d ∷ ds) = omega (arith, advance_all-budget (advance t d) ds)

pub advance_all-services :
    (t : Totals) (ds : List Declared)
    → (advance_all t ds).service_count ≡ t.service_count + total_services ds
advance_all-services t [] = omega arith
advance_all-services t (d ∷ ds) = omega (arith, advance_all-services (advance t d) ds)

pub advance_all-append :
    (t : Totals) (xs ys : List Declared)
    → advance_all t (xs ++ ys) ≡ advance_all (advance_all t xs) ys
advance_all-append t [] ys = refl
advance_all-append t (x ∷ xs) ys = advance_all-append (advance t x) xs ys

-- Each name is new where its process is reached.
abbrev pub AllFresh : Totals → List Declared → Type 0
AllFresh t [] = Unit
AllFresh t (d ∷ ds) = IsFresh d.name t.names × AllFresh (advance t d) ds

pub AllFresh-append :
    (t : Totals) (xs ys : List Declared)
    → AllFresh t (xs ++ ys) ↔ (AllFresh t xs × AllFresh (advance_all t xs) ys)
AllFresh-append t [] ys = (λ h. (tt, h), λ h. h.1)
AllFresh-append t (x ∷ xs) ys =
    let rest = AllFresh-append (advance t x) xs ys in
    (λ h. ((h.0, (rest.0 h.1).0), (rest.0 h.1).1), λ h. (h.0.0, rest.1 (h.0.1, h.1)))

-- A loop whose round checks a process, checks something more, and advances the totals.
module _ {A : Type 0} (view : A → Declared) (Extra : A → Type 0)
    (extra : A → Result SpecError (Unit {0}))
    (extra_iff : (x : A) → (extra x ≡ ok tt) ↔ Extra x) where
  abbrev round : Totals → A → Result SpecError Totals
  round t x = common (view x) t >>= λ after. extra x >> ok after

  pub rounds_sound :
      (xs : List A) (t t' : Totals)
      → t.startup_budget_ms ≤ u64_max
      → fold_each xs t round ≡ ok t'
      → All (λ x. IsValidProcess (view x)) xs
        × All Extra xs
        × AllFresh t (map view xs)
        × (t' ≡ advance_all t (map view xs))
        × (t'.startup_budget_ms ≤ u64_max)
  unfolding fold_each
  rounds_sound [] t t' b h = (tt, tt, tt, cc, ground arith)
  rounds_sound (x ∷ xs) t t' b h =
      let (next, first, rest) = >>=-eq-ok (round t x) (λ s. fold_each xs s round) h in
      let (after, ran, checked) =
        >>=-eq-ok (common (view x) t) (λ (s : Totals). extra x >> ok s) first in
      let (passed, same) = (then_iff (extra x) (ok after) next).0 checked in
      let (valid, fresh, fits, moved) = common_sound (view x) t after b ran in
      let here : next ≡ advance t (view x) = cc in
      let (valids, extras, freshes, end, bound) =
        rounds_sound xs (advance t (view x)) t' fits (rw here at rest) in
      ((valid, valids), ((extra_iff x).0 passed, extras), (fresh, freshes), end, bound)

  pub rounds_complete :
      (xs : List A) (t : Totals)
      → All (λ x. IsValidProcess (view x)) xs
      → All Extra xs
      → AllFresh t (map view xs)
      → t.startup_budget_ms + total_duration (map view xs) ≤ u64_max
      → fold_each xs t round ≡ ok (advance_all t (map view xs))
  unfolding fold_each
  rounds_complete [] t v e f b = refl
  rounds_complete (x ∷ xs) t v e f b =
      let ran = common_complete (view x) t v.0 f.0 (omega arith) in
      let checked = (extra_iff x).1 e.0 in
      rw (ran, checked) (rounds_complete xs (advance t (view x)) v.1 e.1 f.1 (omega arith))

-- Names that differ.
abbrev pub Differ : Declared → Declared → Type 0
Differ p q = p.name ≢ q.name

IsFresh-iff : (name : Bytes) (names : List Bytes) → IsFresh name names ↔ All (λ n. name ≢ n) names
unfolding any
IsFresh-iff name [] = (λ _. tt, λ _. refl)
IsFresh-iff name (n ∷ names) =
    let rest = IsFresh-iff name names in
    let same = bytes_eq_iff name n in
    (
      λ h. (λ e. ground (arith, same.1 e), rest.0 (ground arith)),
      λ h. ground (arith, same, rest.1 h.1),
    )

All-both {ℓ κ μ} :
    {A : Type ℓ} (P : A → Type κ) (Q : A → Type μ) (xs : List A)
    → All (λ x. P x × Q x) xs ↔ (All P xs × All Q xs)
All-both P Q [] = (λ _. (tt, tt), λ _. tt)
All-both P Q (x ∷ xs) =
    let rest = All-both P Q xs in
    (
      λ h. ((h.0.0, (rest.0 h.1).0), (h.0.1, (rest.0 h.1).1)),
      λ h. ((h.0.0, h.1.0), rest.1 (h.0.1, h.1.1)),
    )

flip_all :
    (d : Declared) (ds : List Declared)
    → All (λ (e : Declared). e.name ≢ d.name) ds ↔ All (Differ d) ds
flip_all d [] = (λ _. tt, λ _. tt)
flip_all d (e ∷ ds) =
    let rest = flip_all d ds in
    (λ h. (λ p. h.0 (sym p), rest.0 h.1), λ h. (λ p. h.0 (sym p), rest.1 h.1))

pub AllFresh-iff :
    (t : Totals) (ds : List Declared)
    → AllFresh t ds ↔ (All (λ d. All (λ n. d.name ≢ n) t.names) ds × Pairs Differ ds)
AllFresh-iff t [] = (λ _. (tt, tt), λ _. tt)
AllFresh-iff t (d ∷ ds) =
    let here = IsFresh-iff d.name t.names in
    let rest = AllFresh-iff (advance t d) ds in
    let both =
      All-both (λ (e : Declared). e.name ≢ d.name) (λ (e : Declared). All (λ n. e.name ≢ n) t.names)
        ds in
    let flip = flip_all d ds in
    (
      λ h.
          let (later, apart) = rest.0 h.1 in
          let (from_d, from_names) = both.0 later in
          ((here.0 h.0, from_names), (flip.0 from_d, apart)),
      λ h. (here.1 h.0.0, rest.1 (both.1 (flip.1 h.1.0, h.0.1), h.1.1)),
    )
