-- ===== src/Sandrun/Sandbox/Identity/Verified.antt =====
-- `apply_identity` succeeds only with the ids that it was to set.
use sandcamp.Base.{◌≡◌, refl, Bool, true, false, arith, Result, ok, err, guard}
use sandcamp.Base.Steps.{lift, ◌>>=◌, ◌>>◌, continue, Ends, Triple, bind-Triple}
use sandcamp.Sandrun.Passwd.{UserIdentity}
use sandcamp.Sandrun.Sandbox.{RuntimeError, Ids, Kernel, Trace, Act, look}
use sandcamp.Sandrun.Sandbox.Identity.{has_ids, apply_identity}

-- The real and effective ids are those of the identity.
abbrev pub HasIds : UserIdentity → Ids → Type 0
HasIds i ids = (ids.uid ≡ i.uid) × (ids.euid ≡ i.uid) × (ids.gid ≡ i.gid) × (ids.egid ≡ i.gid)

has_ids-HasIds : (i : UserIdentity) (ids : Ids) → has_ids i ids ≡ true → HasIds i ids
has_ids-HasIds i ids h =
    (ground (arith, h), ground (arith, h), ground (arith, h), ground (arith, h))

module _ (kernel : Kernel) (i : UserIdentity) where
  abbrev Verified : Unit {0} → Trace kernel.World → Type 0
  Verified u s = HasIds i (kernel.ids s.world)

  abbrev Any : Trace kernel.World → Type 0
  Any s = Unit

  abbrev Verifies : Act kernel (Unit {0}) → Type 0
  Verifies m = Triple Any Verified Any m

  Any-Triple : {A : Type 0} (m : Act kernel A) → Triple Any (λ _. Any) Any m
  Any-Triple {A = A} m s h = go (m s)
    where
      go : (r : Result RuntimeError A × Trace kernel.World) → Ends (λ _. Any) Any r
      go (ok a, t) = tt
      go (err e, t) = tt

  -- What comes before the last check does not matter.
  before-Verifies : (m k : Act kernel (Unit {0})) → Verifies k → Verifies (m >> k)
  before-Verifies m k h = bind-Triple Any (λ _. Any) Verified Any m (λ _. k) (Any-Triple m) (λ _. h)

  check-Verifies :
      (e : RuntimeError)
      → Verifies (look kernel kernel.ids >>= λ ids. lift (guard (has_ids i ids) e))
  unfolding continue
  check-Verifies e s h = go (has_ids i (kernel.ids s.world)) (has_ids-HasIds i (kernel.ids s.world))
    where
      go :
          (b : Bool) → (b ≡ true → HasIds i (kernel.ids s.world)) → Ends Verified Any (guard b e, s)
      go true k = k refl
      go false k = tt

  apply_identity-Verifies : Verifies (apply_identity kernel i)
  unfolding apply_identity
  apply_identity-Verifies = before-Verifies _ _ (
      before-Verifies _ _ (
        before-Verifies _ _
          (before-Verifies _ _ (before-Verifies _ _ (before-Verifies _ _ (check-Verifies _))))))

-- If the identity is taken on without an error, the real and the effective user and group are the
-- ones that were asked for, whatever the calls before did.
pub apply_identity-HasIds :
    (kernel : Kernel) (i : UserIdentity) (s : Trace kernel.World) (u : Unit {0})
    → (apply_identity kernel i s).0 ≡ ok u
    → HasIds i (kernel.ids (apply_identity kernel i s).1.world)
apply_identity-HasIds kernel i s u e =
    go (apply_identity kernel i s) (apply_identity-Verifies kernel i s tt) e
  where
    go :
        (r : Result RuntimeError (Unit {0}) × Trace kernel.World)
        → Ends (Verified kernel i) (Any kernel i) r
        → r.0 ≡ ok u
        → HasIds i (kernel.ids r.1.world)
    go (ok a, t) h f = h
    go (err x, t) h f = cc
