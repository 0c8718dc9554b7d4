-- ===== src/Sandrun/Sandbox/Overlay/Fresh.antt =====
-- A new overlay workspace: a directory that was not there, after at most 128 attempts.
use sandcamp.Base.{
  ℕ, zero, suc, ◌<◌, ◌≤◌, ◌≡◌, refl, ap, List, [], ◌∷◌, ◌++◌, append_assoc, sym, ◌∙◌, arith, length,
  length-append, Bytes, Result, ok, err, if-cases,
}
use sandcamp.Base.Steps.{continue}
use sandcamp.Rust.Path.{join}
use sandcamp.Sandrun.Sandbox.{
  IoError, RuntimeError, Effect, make_directory, Kernel, Trace, logged, attempt,
}
use sandcamp.Sandrun.Sandbox.Overlay.{
  exists_already, workspace_made, workspace_from, create_overlay_workspace,
}

module _ (kernel : Kernel) where
  -- The attempts that were made: at most so many, of which one that yields a path is the last and
  -- has made the directory.
  abbrev pub Tried : ℕ → List Effect → Result RuntimeError Bytes × Trace kernel.World → Type 0
  Tried limit before (ok path, t) =
      (failed : List Effect) × (length failed < limit)
      × (t.effects ≡ make_directory path 448 ∷ (failed ++ before))
      × ((world : kernel.World) × (kernel.perform (make_directory path 448) world
            ≡ (ok tt, t.world)))
  Tried limit before (err e, t) =
      (failed : List Effect) × (length failed ≤ limit) × (t.effects ≡ failed ++ before)

  Tried-later :
      (limit : ℕ) (e : Effect) (before : List Effect)
      (out : Result RuntimeError Bytes × Trace kernel.World)
      → Tried limit (e ∷ before) out
      → Tried (suc limit) before out
  Tried-later limit e before (ok path, t) (failed, n, same, made) = (
    failed ++ e ∷ [],
    omega (arith, n, length-append failed (e ∷ [])),
    same ∙ ap (λ es. make_directory path 448 ∷ es) (sym (append_assoc failed (e ∷ []) before)),
    made,
  )
  Tried-later limit e before (err x, t) (failed, n, same) = (
    failed ++ e ∷ [],
    omega (arith, n, length-append failed (e ∷ [])),
    same ∙ sym (append_assoc failed (e ∷ []) before),
  )

  workspace_from-Tried :
      (left : ℕ) (base : Bytes) (number : ℕ) (s : Trace kernel.World)
      → Tried left s.effects (workspace_from kernel left base number s)
  unfolding workspace_from continue attempt
  workspace_from-Tried zero base number s = ([], omega arith, refl)
  workspace_from-Tried (suc left) base number s =
      let path = join base (kernel.workspace_name number s.world) in
      go (λ t. workspace_from-Tried left base (suc number) t) path
        (kernel.perform (make_directory path 448) s.world) refl
    where
      go :
          ((t : Trace kernel.World)
            → Tried left t.effects (workspace_from kernel left base (suc number) t))
          → (path : Bytes) (r : Result IoError (Unit {0}) × kernel.World)
          → kernel.perform (make_directory path 448) s.world ≡ r
          → Tried (suc left) s.effects (
              continue
                (logged kernel (make_directory path 448) s.effects r)
                (workspace_made kernel (workspace_from kernel left base) number path))
      go again path (ok u, w) e = unfold workspace_made in ([], omega arith, refl, (s.world, e))
      go again path (err x, w) e =
          unfold workspace_made in
          let t : Trace kernel.World = record {
            world = w;
            effects = make_directory path 448 ∷ s.effects;
          } in
          if-cases (λ m. Tried (suc left) s.effects (m t)) (exists_already x)
            (workspace_from kernel left base (suc number)) _
            (λ _.
              Tried-later left (make_directory path 448) s.effects
                (workspace_from kernel left base (suc number) t) (again t))
            (λ _. (make_directory path 448 ∷ [], omega arith, refl))

-- A new workspace takes at most 128 attempts. If there is one, its directory was made by the last
-- attempt, which succeeded, so that no other run has it; otherwise the attempts are all that was
-- done.
pub create_overlay_workspace-Tried :
    (kernel : Kernel) (base : Bytes) (s : Trace kernel.World)
    → Tried kernel 128 s.effects (create_overlay_workspace kernel base s)
unfolding create_overlay_workspace
create_overlay_workspace-Tried kernel base s = workspace_from-Tried kernel 128 base 0 s
