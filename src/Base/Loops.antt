-- ===== src/Base/Loops.antt =====
-- When the loops over a list succeed.
use mathlib.Core.Path.{◌≡◌, refl}
use mathlib.Core.Logic.{◌↔◌}
use mathlib.Core.Bool.{Bool, true, false}
use mathlib.Core.List.{List, [], ◌∷◌}
use sandcamp.Base.Results.{Result, ok, err, ◌>>◌, guard, for_each}
use sandcamp.Base.Lists.{All}

pub >>-eq-ok_iff {ℓ} :
    {E : Type ℓ} (m k : Result E (Unit {0})) → ((m >> k) ≡ ok tt) ↔ ((m ≡ ok tt) × (k ≡ ok tt))
>>-eq-ok_iff (ok tt) k = (λ h. (refl, h), λ h. h.1)
>>-eq-ok_iff (err e) k = (λ h. cc, λ h. cc)

pub for_each_iff {ℓ κ} :
    {E : Type ℓ} {A : Type κ} (xs : List A) (f : A → Result E (Unit {0}))
    → (for_each xs f ≡ ok tt) ↔ All (λ x. f x ≡ ok tt) xs
unfolding for_each
for_each_iff [] f = (λ _. tt, λ _. refl)
for_each_iff (x ∷ xs) f =
    let both = >>-eq-ok_iff (f x) (for_each xs f) in
    let rest = for_each_iff xs f in
    (λ h. ((both.0 h).0, rest.0 (both.0 h).1), λ h. both.1 (h.0, rest.1 h.1))

pub All-map_iff {ℓ κ μ} :
    {A : Type ℓ} {P : A → Type κ} {Q : A → Type μ} (xs : List A)
    → ((x : A) → P x ↔ Q x)
    → All P xs ↔ All Q xs
All-map_iff [] h = (λ _. tt, λ _. tt)
All-map_iff (x ∷ xs) h =
    let rest = All-map_iff xs h in (λ a. ((h x).0 a.0, rest.0 a.1), λ a. ((h x).1 a.0, rest.1 a.1))

-- A check, a loop, and the result.
pub guarded_iff {ℓ κ} :
    {E : Type ℓ} {A : Type κ} (b : Bool) (e : E) (m : Result E (Unit {0})) (a x : A)
    → ((guard b e >> (m >> ok a)) ≡ ok x) ↔ ((b ≡ true) × (m ≡ ok tt) × (x ≡ a))
guarded_iff true e (ok tt) a x = (λ h. (refl, refl, cc), λ h. cc)
guarded_iff true e (err f) a x = (λ h. cc, λ h. cc)
guarded_iff false e m a x = (λ h. cc, λ h. cc)

pub guard_iff {ℓ} : {E : Type ℓ} (b : Bool) (e : E) → (guard b e ≡ ok tt) ↔ (b ≡ true)
guard_iff true e = (λ _. refl, λ _. refl)
guard_iff false e = (λ h. cc, λ h. cc)

pub guard-bind_iff {ℓ κ} :
    {E : Type ℓ} {B : Type κ} (b : Bool) (e : E) (k : Result E B) (x : B)
    → ((guard b e >> k) ≡ ok x) ↔ ((b ≡ true) × (k ≡ ok x))
guard-bind_iff true e k x = (λ h. (refl, h), λ h. h.1)
guard-bind_iff false e k x = (λ h. cc, λ h. cc)

pub then_iff {ℓ κ} :
    {E : Type ℓ} {B : Type κ} (m : Result E (Unit {0})) (k : Result E B) (x : B)
    → ((m >> k) ≡ ok x) ↔ ((m ≡ ok tt) × (k ≡ ok x))
then_iff (ok tt) k x = (λ h. (refl, h), λ h. h.1)
then_iff (err e) k x = (λ h. cc, λ h. cc)
