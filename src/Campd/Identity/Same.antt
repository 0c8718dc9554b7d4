-- ===== src/Campd/Identity/Same.antt =====
-- campd and sandrun take on an identity by the same calls.
use sandcamp.Base.{
  ◌≡◌, refl, ap, sym, ◌∙◌, ◌==◌, Bool, true, false, not, none, Bytes, if◌then◌else◌, Result, ok,
  err, guard, map_err,
}
use sandcamp.Base.Steps.{lift, ◌>>=◌, continue}
use sandcamp.Sandrun.Passwd.{UserIdentity}
use sandcamp.Sandrun.Sandbox.{
  IoError, RuntimeError, operation, Effect, Kernel, perform, Trace, Act, logged, attempt, look,
}
use sandcamp.Sandrun.Sandbox.Identity.{eperm, has_ids, perform_if, apply_identity}
use sandcamp.Campd.Identity.{IoAct, called, call, see, call_if, take_on, apply_main_identity}

-- The error of the system in an error of sandrun.
abbrev pub source_of : RuntimeError → IoError
source_of (operation name path e) = e
source_of _ = eperm

abbrev pub forget : {A S : Type 0} → Result RuntimeError A × S → Result IoError A × S
forget (r, s) = (map_err source_of r, s)

-- The two acts do the same, up to the wrapping of the error.
record Agree (kernel : Kernel) {A : Type 0} (m : Act kernel A) (n : IoAct kernel A) : Type 0 where
  agree : (s : Trace kernel.World) → forget (m s) ≡ n s

module _ {kernel : Kernel} where
  bind-Agree :
      {A B : Type 0} {m : Act kernel A} {n : IoAct kernel A} {k : A → Act kernel B}
      {l : A → IoAct kernel B}
      → Agree kernel m n
      → ((a : A) → Agree kernel (k a) (l a))
      → Agree kernel (m >>= k) (n >>= l)
  unfolding continue
  bind-Agree {A = A} {m = m} {k = k} {l = l} first later = record {
    agree = λ s. go (m s) ∙ ap (λ r. continue r l) (first.agree s);
  }
    where
      go :
          (r : Result RuntimeError A × Trace kernel.World)
          → forget (continue r k) ≡ continue (forget r) l
      go (ok a, t) = (later a).agree t
      go (err e, t) = refl

  perform-Agree :
      (name : Bytes) (e : Effect) → Agree kernel (perform kernel name none e) (call kernel e)
  unfolding perform attempt call continue
  perform-Agree name e = record { agree = λ s. go s (kernel.perform e s.world) }
    where
      go :
          (s : Trace kernel.World) (r : Result IoError (Unit {0}) × kernel.World)
          → forget (
              continue
                (logged kernel e s.effects r)
                (λ result. lift (map_err (operation name none) result)))
            ≡ called kernel e s.effects r
      go s (ok u, w) = refl
      go s (err x, w) = refl

  perform_if-Agree :
      (needed : Bool) (name : Bytes) (e : Effect)
      → Agree kernel (perform_if kernel needed name e) (call_if kernel needed e)
  unfolding perform_if call_if
  perform_if-Agree false name e = record { agree = λ s. refl }
  perform_if-Agree true name e = perform-Agree name e

  look-Agree : {A : Type 0} (f : kernel.World → A) → Agree kernel (look kernel f) (see kernel f)
  look-Agree f = record { agree = λ s. refl }

  check-Agree :
      (b : Bool) (name : Bytes)
      → Agree kernel (lift (guard b (operation name none eperm))) (lift (guard b eperm))
  check-Agree true name = record { agree = λ s. refl }
  check-Agree false name = record { agree = λ s. refl }

  apply_identity-Agree :
      (i : UserIdentity) → Agree kernel (apply_identity kernel i) (take_on kernel i)
  unfolding apply_identity take_on
  apply_identity-Agree i =
      let non_root = not (i.uid == 0) in
      bind-Agree (perform_if-Agree non_root _ _) (λ _. bind-Agree (perform-Agree _ _) (λ _.
        bind-Agree (perform-Agree _ _) (λ _. bind-Agree (perform-Agree _ _) (λ _.
          bind-Agree (perform_if-Agree non_root _ _) (λ _.
            bind-Agree (perform_if-Agree non_root _ _)
              (λ _. bind-Agree (look-Agree _) (λ ids. check-Agree (has_ids i ids) _)))))))

-- A process of campd that runs as root takes on an identity by the very calls of sandrun, in the same
-- order and with the same end, be it an error of the system or the new identity; one that does not
-- run as root is refused and makes no call.
pub apply_main_identity-forget :
    (kernel : Kernel) (i : UserIdentity) (s : Trace kernel.World)
    → apply_main_identity kernel i s ≡ (
        if (kernel.ids s.world).euid == 0
        then forget (apply_identity kernel i s)
        else (err eperm, s))
unfolding apply_main_identity continue
apply_main_identity-forget kernel i s = go ((kernel.ids s.world).euid == 0)
  where
    go :
        (root : Bool)
        → continue (guard root eperm, s) (λ u. take_on kernel i)
          ≡ (if root then forget (apply_identity kernel i s) else (err eperm, s))
    go true = sym ((apply_identity-Agree i).agree s)
    go false = refl
