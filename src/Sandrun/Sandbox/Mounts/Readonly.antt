-- ===== src/Sandrun/Sandbox/Mounts/Readonly.antt =====
-- What `prepare_mounts` keeps of the declared binds, and what the mount of one does.
use sandcamp.Base.{
  ◌≡◌, refl, sym, subst, Bool, true, false, Option, some, List, [], ◌∷◌, ◌++◌, if◌then◌else◌, Bytes,
  ascii, Result, ok, err, map_err,
}
use sandcamp.Base.Steps.{lift, pure, continue, Ends, Gives, pure-Gives, any-Gives, bind-Gives}
use sandcamp.Sandrun.Config.{Bind}
use sandcamp.Sandrun.Sandbox.{
  IoError, RuntimeError, operation, ms_bind, ms_rec, MountCall, Effect, mount, Kernel, perform,
  Trace, Act, logged, attempt, mount_raw, inspect, place, unresolved,
}
use sandcamp.Sandrun.Resolve.{Names, ResolveError, resolve_target}
use sandcamp.Sandrun.Sandbox.Places.{entry_at, resolve_below}
use sandcamp.Sandrun.Sandbox.Places.Found.{Leads, IsReal}
use sandcamp.Sandrun.Sandbox.Binds.{PreparedBind, prepare_bind_with_recursion}
use sandcamp.Sandrun.Sandbox.Mounts.{
  MountOperation, bind, bind_mount, readonly_mount, bind_operation, remount_if, apply_mount,
}

module _ (kernel : Kernel) where
  -- A mount that succeeds is the one effect.
  abbrev OnlyMount :
      MountCall → List Effect → Result RuntimeError (Unit {0}) × Trace kernel.World → Type 0
  OnlyMount call before (ok u, t) = t.effects ≡ mount call ∷ before
  OnlyMount call before (err e, t) = Unit

  checked-OnlyMount :
      (call : MountCall) (r : Result RuntimeError (Unit {0})) (k : Act kernel (Unit {0}))
      (s : Trace kernel.World)
      → OnlyMount call s.effects (k s)
      → OnlyMount call s.effects (continue (r, s) (λ u. k))
  unfolding continue
  checked-OnlyMount call (ok u) k s h = h
  checked-OnlyMount call (err e) k s h = tt

  perform-OnlyMount :
      (name : Bytes) (path : Option Bytes) (call : MountCall) (s : Trace kernel.World)
      → OnlyMount call s.effects (perform kernel name path (mount call) s)
  unfolding perform attempt continue
  perform-OnlyMount name path call s = go (kernel.perform (mount call) s.world)
    where
      go :
          (r : Result IoError (Unit {0}) × kernel.World)
          → OnlyMount call s.effects (
              continue
                (logged kernel (mount call) s.effects r)
                (λ result. lift (map_err (operation name path) result)))
      go (ok u, w) = refl
      go (err e, w) = tt

  mount_raw-OnlyMount :
      (name : Bytes) (call : MountCall) (s : Trace kernel.World)
      → OnlyMount call s.effects (mount_raw kernel name call s)
  unfolding mount_raw
  mount_raw-OnlyMount name call s = checked-OnlyMount call _ _ s (
      checked-OnlyMount call _ _ s (
        checked-OnlyMount call _ _ s
          (checked-OnlyMount call _ _ s (perform-OnlyMount name (some call.target) call s))))

  -- The effects of a bind that is mounted.
  abbrev pub bind_effects : PreparedBind → List Effect
  bind_effects b =
      let first =
        mount
          (bind_mount b.source b.target (ms_bind ∷ (if b.recursive then ms_rec ∷ [] else []))) in
      if b.readonly then mount (readonly_mount b.target) ∷ first ∷ [] else first ∷ []

  abbrev Bound :
      PreparedBind → List Effect → Result RuntimeError (Unit {0}) × Trace kernel.World → Type 0
  Bound b before (ok u, t) = t.effects ≡ bind_effects b ++ before
  Bound b before (err e, t) = Unit

  remount-Bound :
      (b : PreparedBind) (before : List Effect)
      (out : Result RuntimeError (Unit {0}) × Trace kernel.World)
      → OnlyMount
          (bind_mount b.source b.target (ms_bind ∷ (if b.recursive then ms_rec ∷ [] else [])))
          before
          out
      → Bound b before (continue out (λ u. remount_if kernel b.readonly b.target))
  unfolding continue
  remount-Bound b before (err e, t) h = tt
  remount-Bound b before (ok u, t) h = go b.readonly refl
    where
      end :
          (out : Result RuntimeError (Unit {0}) × Trace kernel.World)
          → b.readonly ≡ true
          → OnlyMount (readonly_mount b.target) t.effects out
          → Bound b before out
      end (ok v, t') e k = rw (e, k, h) refl
      end (err x, t') e k = tt

      go : (r : Bool) → b.readonly ≡ r → Bound b before (remount_if kernel r b.target t)
      go false e = unfold remount_if in rw (e, h) refl
      go true e =
          unfold remount_if in
          end (mount_raw kernel (ascii "bind_remount_readonly_failed") (readonly_mount b.target) t)
            e
            (mount_raw-OnlyMount (ascii "bind_remount_readonly_failed") (readonly_mount b.target) t)

  apply_mount-Bound :
      (b : PreparedBind) (s : Trace kernel.World)
      → Bound b s.effects (apply_mount kernel (bind b) s)
  unfolding apply_mount
  apply_mount-Bound b s =
      remount-Bound b s.effects _ (mount_raw-OnlyMount (ascii "bind_mount_failed") _ s)

  -- The bind that is prepared: the declared source without its links, the place below the root that
  -- the declared target leads to, and the flags.
  pub record Kept (rootfs : Bytes) (b : Bind) (p : PreparedBind) : Type 0 where
    pub source : IsReal kernel b.source p.source
    pub target : Leads kernel rootfs b.target p.target
    pub readonly : p.readonly ≡ b.readonly
    pub whole : p.recursive ≡ false

  abbrev pub Declared : Bytes → Bind → MountOperation → Type 0
  Declared rootfs b op = (p : PreparedBind) × (op ≡ bind p) × Kept rootfs b p

  inspect-Gives :
      {A : Type 0} {G : A → Type 0} (name : Bytes) (path : Option Bytes)
      (f : kernel.World → Result IoError A)
      → ((w : kernel.World) (a : A) → f w ≡ ok a → G a)
      → Gives G (inspect kernel name path f)
  unfolding inspect
  inspect-Gives {A = A} {G = G} name path f g = record { gives = λ s. go s (f s.world) (g s.world) }
    where
      go :
          (s : Trace kernel.World) (r : Result IoError A)
          → ((a : A) → r ≡ ok a → G a)
          → Ends (λ a _. G a) (λ _. Unit {0}) (map_err (operation name path) r, s)
      go s (ok a) h = h a refl
      go s (err e) h = tt

  resolve_below-Gives :
      (root target : Bytes) → Gives (Leads kernel root target) (resolve_below kernel root target)
  unfolding resolve_below continue
  resolve_below-Gives root target = record {
    gives = λ s. go s (resolve_target (entry_at kernel root s.world) target) refl;
  }
    where
      go :
          (s : Trace kernel.World) (r : Result ResolveError Names)
          → resolve_target (entry_at kernel root s.world) target ≡ r
          → Ends
              (λ path _. Leads kernel root target path)
              (λ _. Unit {0})
              (continue (map_err unresolved r, s) (λ names. pure (place root names)))
      go s (ok names) e = record { names = names; world = s.world; resolved = e; same = refl }
      go s (err x) e = tt

  prepare_bind-Gives :
      (rootfs : Bytes) (b : Bind)
      → Gives (Kept rootfs b) (prepare_bind_with_recursion kernel rootfs b false)
  unfolding prepare_bind_with_recursion
  prepare_bind-Gives rootfs b =
      bind-Gives
        (inspect-Gives {G = IsReal kernel b.source} _ _ (kernel.canonicalize b.source)
          (λ w a e. (w, e)))
        (λ source real. bind-Gives (resolve_below-Gives rootfs b.target) (λ target leads.
          bind-Gives (any-Gives _) (λ s _. bind-Gives (any-Gives _) (λ t _.
            bind-Gives (any-Gives _) (λ u _.
              pure-Gives _
                (record { source = real; target = leads; readonly = refl; whole = refl }))))))

  bind_operation-Gives :
      (rootfs : Bytes) (b : Bind) → Gives (Declared rootfs b) (bind_operation kernel rootfs b)
  unfolding bind_operation
  bind_operation-Gives rootfs b =
      bind-Gives (prepare_bind-Gives rootfs b) (λ p h. pure-Gives (bind p) (p, refl, h))

  -- The mounts of a declared bind, the last one first.
  abbrev pub declared_effects : Bind → Bytes → Bytes → List Effect
  declared_effects b source target =
      let first = mount (bind_mount source target (ms_bind ∷ [])) in
      if b.readonly then mount (readonly_mount target) ∷ first ∷ [] else first ∷ []

  abbrev pub Mounts :
      Bytes → Bind → List Effect → Result RuntimeError (Unit {0}) × Trace kernel.World → Type 0
  Mounts rootfs b before out =
      (source : Bytes) × (target : Bytes) × IsReal kernel b.source source
      × Leads kernel rootfs b.target target
      × (out.1.effects ≡ declared_effects b source target ++ before)

  Bound-Mounts :
      (rootfs : Bytes) (b : Bind) (p : PreparedBind) (before : List Effect)
      (out : Result RuntimeError (Unit {0}) × Trace kernel.World) (u : Unit {0})
      → Kept rootfs b p
      → Bound p before out
      → out.0 ≡ ok u
      → Mounts rootfs b before out
  Bound-Mounts rootfs b p before (ok v, t) u k h e =
      let same : bind_effects p ≡ declared_effects b p.source p.target =
        rw (k.readonly, k.whole) refl in
      (p.source, p.target, k.source, k.target, rw (sym same) h)
  Bound-Mounts rootfs b p before (err x, t) u k h e = cc

  apply_mount-Mounts :
      (rootfs : Bytes) (b : Bind) (op : MountOperation) (t : Trace kernel.World) (u : Unit {0})
      → Declared rootfs b op
      → (apply_mount kernel op t).0 ≡ ok u
      → Mounts rootfs b t.effects (apply_mount kernel op t)
  apply_mount-Mounts rootfs b op t u (p, same', kept) =
      subst
        (λ o.
          (apply_mount kernel o t).0 ≡ ok u → Mounts rootfs b t.effects (apply_mount kernel o t))
        (sym same')
        (λ e.
          Bound-Mounts rootfs b p t.effects (apply_mount kernel (bind p) t) u kept
            (apply_mount-Bound p t) e)

  Gives-ok :
      {A : Type 0} (G : A → Type 0) (r : Result RuntimeError A × Trace kernel.World) (a : A)
      → Ends (λ b _. G b) (λ _. Unit {0}) r
      → r.0 ≡ ok a
      → G a
  Gives-ok G (ok b, w) a h k = let eq : b ≡ a = cc in subst G eq h
  Gives-ok G (err x, w) a h k = cc

-- The operation that is prepared for a declared bind mounts its source, free of symbolic links, at
-- the place below the root that its target leads to, and nothing else, without what is mounted below
-- the source; and exactly if the bind is declared read-only, the mount is made read-only next. This
-- holds if neither the preparation nor the mount fails.
pub apply_mount-declared :
    (kernel : Kernel) (rootfs : Bytes) (b : Bind) (s t : Trace kernel.World) (op : MountOperation)
    (u : Unit {0})
    → (bind_operation kernel rootfs b s).0 ≡ ok op
    → (apply_mount kernel op t).0 ≡ ok u
    → Mounts kernel rootfs b t.effects (apply_mount kernel op t)
apply_mount-declared kernel rootfs b s t op u e f =
    apply_mount-Mounts kernel rootfs b op t u
      (Gives-ok kernel (Declared kernel rootfs b) (bind_operation kernel rootfs b s) op
        ((bind_operation-Gives kernel rootfs b).gives s) e)
      f
