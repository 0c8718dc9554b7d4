-- ===== src/Base/Steps.antt =====
-- Fallible code with a state: `Result` with the state passed on, the state of an error included.
use mathlib.Core.List.{List, [], ◌∷◌}
use sandcamp.Base.Results.{Result, ok, err}

abbrev pub Step {ℓ κ μ} : Type ℓ → Type κ → Type μ → Type (ℓ ⊔ κ ⊔ μ)
Step S E A = S → Result E A × S

-- What the rest does with a result and the state it left.
unfoldable pub continue {ℓ κ μ ν} :
    {S : Type ℓ} {E : Type κ} {A : Type μ} {B : Type ν}
    → Result E A × S
    → (A → Step S E B)
    → Result E B × S
continue (ok a, s) k = k a s
continue (err e, s) k = (err e, s)

infixl 5 ◌>>=◌ ◌>>◌
abbrev pub ◌>>=◌ {ℓ κ μ ν} :
    {S : Type ℓ} {E : Type κ} {A : Type μ} {B : Type ν} → Step S E A → (A → Step S E B) → Step S E B
m >>= k = λ s. continue (m s) k

abbrev pub ◌>>◌ {ℓ κ ν} :
    {S : Type ℓ} {E : Type κ} {B : Type ν} → Step S E (Unit {0}) → Step S E B → Step S E B
m >> k = m >>= λ u. k

-- A result that leaves the state, and a check.
abbrev pub lift {ℓ κ μ} : {S : Type ℓ} {E : Type κ} {A : Type μ} → Result E A → Step S E A
lift r = λ s. (r, s)

abbrev pub pure {ℓ κ μ} : {S : Type ℓ} {E : Type κ} {A : Type μ} → A → Step S E A
pure a = lift (ok a)

abbrev pub fail {ℓ κ μ} : {S : Type ℓ} {E : Type κ} {A : Type μ} → E → Step S E A
fail e = lift (err e)

-- A loop over a list that stops at the first error.
unfoldable pub each {ℓ κ μ} :
    {S : Type ℓ} {E : Type κ} {A : Type μ}
    → List A
    → (A → Step S E (Unit {0}))
    → Step S E (Unit {0})
each [] f = pure tt
each (x ∷ xs) f = f x >> each xs f

-- The same with the results in a list.
unfoldable pub collect_each {ℓ κ μ ν} :
    {S : Type ℓ} {E : Type κ} {A : Type μ} {B : Type ν}
    → List A
    → (A → Step S E B)
    → Step S E (List B)
collect_each [] f = pure []
collect_each (x ∷ xs) f = do y ← f x; ys ← collect_each xs f; pure (y ∷ ys)

-- From a state with `P`, a success ends with `Q` of the result and an error with `F`.
module _ {ℓ κ μ ν} {S : Type ℓ} {E : Type κ} {A : Type μ} where
  abbrev pub Ends : (A → S → Type ν) → (S → Type ν) → Result E A × S → Type ν
  Ends Q F (ok a, s) = Q a s
  Ends Q F (err e, s) = F s

  abbrev pub Triple : (S → Type ν) → (A → S → Type ν) → (S → Type ν) → Step S E A → Type (ℓ ⊔ ν)
  Triple P Q F m = (s : S) → P s → Ends Q F (m s)

pub bind-Triple {ℓ κ μ ν ρ} :
    {S : Type ℓ} {E : Type κ} {A : Type μ} {B : Type ν} (P : S → Type ρ) (Q : A → S → Type ρ)
    (R : B → S → Type ρ) (F : S → Type ρ) (m : Step S E A) (k : A → Step S E B)
    → Triple P Q F m
    → ((a : A) → Triple (Q a) R F (k a))
    → Triple P R F (m >>= k)
unfolding continue
bind-Triple {A = A} P Q R F m k first later s p = go (m s) (first s p)
  where
    go : (r : Result _ A × _) → Ends Q F r → Ends R F (continue r k)
    go (ok a, t) h = later a t h
    go (err e, t) h = h

-- A step all of whose results have a property, whatever the state.
pub record Gives {S E A : Type 0} (G : A → Type 0) (m : Step S E A) : Type 0 where
  pub gives : (s : S) → Ends (λ a _. G a) (λ _. Unit {0}) (m s)

pub pure-Gives : {S E A : Type 0} {G : A → Type 0} (a : A) → G a → Gives {S = S} {E = E} G (pure a)
pure-Gives a g = record { gives = λ s. g }

pub any-Gives : {S E A : Type 0} (m : Step S E A) → Gives (λ _. Unit {0}) m
any-Gives {S = S} {E = E} {A = A} m = record { gives = λ s. go (m s) }
  where
    go : (r : Result E A × S) → Ends (λ _ _. Unit {0}) (λ _. Unit {0}) r
    go (ok a, t) = tt
    go (err e, t) = tt

pub bind-Gives :
    {S E A B : Type 0} {G : A → Type 0} {H : B → Type 0} {m : Step S E A} {k : A → Step S E B}
    → Gives G m
    → ((a : A) → G a → Gives H (k a))
    → Gives H (m >>= k)
unfolding continue
bind-Gives {S = S} {E = E} {A = A} {G = G} {H = H} {m = m} {k = k} first later = record {
  gives = λ s. go (m s) (first.gives s);
}
  where
    go :
        (r : Result E A × S)
        → Ends (λ a _. G a) (λ _. Unit {0}) r
        → Ends (λ b _. H b) (λ _. Unit {0}) (continue r k)
    go (ok a, t) g = (later a g).gives t
    go (err e, t) g = tt
