-- ===== src/Sandrun/Args/Accepts.antt =====
-- What a command line that sandrun accepts declares.
use sandcamp.Base.{
  ◌≤◌, ◌≡◌, refl, subst, ◌⊎◌, inl, inr, Bool, true, false, not, ◌&&◌, Option, none, some, List, [],
  ◌∷◌, ◌++◌, map, arith, if◌then◌else◌, Bytes, ascii, All, Pairs, length, is_empty, is_some, Result,
  ok, ok_or, for_each, for_each_iff, guard_iff, guard-bind_iff, then_iff, >>=-eq-ok,
}
use sandcamp.Rust.Path.Apart.{Apart, Apart-symm, Separate}
use sandcamp.Sandrun.Config.{
  ConfigError, Config, Bind, clean_absolute, validate_outer_path, validate_inner_path, bind_target,
  standard_targets, validate_mount_targets, validate_target_paths,
}
use sandcamp.Sandrun.Config.Laws.{Separate-of_validated}
use sandcamp.Sandrun.Args.{
  Options, no_options, scan, select_user, when_some, validate_overlay_id, validate_bind_paths,
  finish, with_command, parse_args,
}

abbrev pub IsClean : Bytes → Type 0
IsClean path = clean_absolute path false ≡ true

abbrev pub WhenSome : {A : Type 0} → (A → Type 0) → Option A → Type 0
WhenSome P none = Unit
WhenSome P (some a) = P a

abbrev pub IsOverlayId : Bytes → Type 0
IsOverlayId id = (1 ≤ length id) × (length id ≤ 256)

abbrev pub IsCleanBind : Bind → Type 0
IsCleanBind bind = IsClean bind.source × IsClean bind.target

-- An overlay device needs an id, and disk mounts need a device.
abbrev pub Implies : Bool → Bool → Type 0
Implies a b = (a ≡ false) ⊎ (b ≡ true)

abbrev pub targets_of : Config → List Bytes
targets_of c =
    (if c.standard_mounts then standard_targets else [])
    ++ (c.disk_mounts ++ (map bind_target c.binds ++ c.tmpfs))

pub record IsConfig (c : Config) : Type 0 where
  pub rootfs : IsClean c.rootfs
  pub overlay_device : WhenSome IsClean c.overlay_device
  pub overlay_id : WhenSome IsOverlayId c.overlay_id
  pub device_has_id : Implies (is_some c.overlay_device) (is_some c.overlay_id)
  pub disks_have_device : Implies (not (is_empty c.disk_mounts)) (is_some c.overlay_device)
  pub workdir : clean_absolute c.workdir true ≡ true
  pub disk_mounts : All IsClean c.disk_mounts
  pub binds : All IsCleanBind c.binds
  pub tmpfs : All IsClean c.tmpfs
  pub apart : Pairs Apart (targets_of c)
  pub executable : (head : Bytes) × (rest : List Bytes) × (c.command ≡ head ∷ rest) × IsClean head

when_some-passes :
    {A : Type 0} (P : A → Type 0) (o : Option A) (f : A → Result ConfigError (Unit {0}))
    → ((a : A) → f a ≡ ok tt → P a)
    → when_some o f ≡ ok tt
    → WhenSome P o
when_some-passes P none f h e = tt
when_some-passes P (some a) f h e = h a e

outer-IsClean : (field path : Bytes) → validate_outer_path field path ≡ ok tt → IsClean path
unfolding validate_outer_path
outer-IsClean field path e =
    (guard_iff (clean_absolute path false) (ConfigError.invalid_path field path)).0 e

inner-clean :
    (field path : Bytes) (root : Bool)
    → validate_inner_path field path root ≡ ok tt
    → clean_absolute path root ≡ true
unfolding validate_inner_path
inner-clean field path root e =
    (guard_iff (clean_absolute path root) (ConfigError.invalid_path field path)).0 e

validate_overlay_id_sound : (id : Bytes) → validate_overlay_id id ≡ ok tt → IsOverlayId id
unfolding validate_overlay_id
validate_overlay_id_sound id e = (ground arith, ground arith)

bind_paths-IsCleanBind : (b : Bind) → validate_bind_paths b ≡ ok tt → IsCleanBind b
unfolding validate_bind_paths
bind_paths-IsCleanBind b e =
    let both =
      (then_iff (validate_outer_path (ascii "bind source") b.source)
          (validate_inner_path (ascii "bind target") b.target false) tt).0
        e in
    (
      outer-IsClean (ascii "bind source") b.source both.0,
      inner-clean (ascii "bind target") b.target false both.1,
    )

-- Targets that are each apart from the earlier ones are apart in pairs.
Apart-later :
    (before : List Bytes) (p : Bytes) (ps : List Bytes)
    → Separate (p ∷ before) ps
    → All (Apart p) ps
Apart-later before p [] h = tt
Apart-later before p (q ∷ qs) h = (Apart-symm q p h.0.0, Apart-later (before ++ q ∷ []) p qs h.1)

Separate-tail :
    (before : List Bytes) (p : Bytes) (ps : List Bytes)
    → Separate (p ∷ before) ps
    → Separate before ps
Separate-tail before p [] h = tt
Separate-tail before p (q ∷ qs) h = (h.0.1, Separate-tail (before ++ q ∷ []) p qs h.1)

pub Separate-Pairs : (ps : List Bytes) → Separate [] ps → Pairs Apart ps
Separate-Pairs [] h = tt
Separate-Pairs (p ∷ ps) h = (Apart-later [] p ps h.1, Separate-Pairs ps (Separate-tail [] p ps h.1))

implies : (a b : Bool) → not (a && not b) ≡ true → Implies a b
implies true true h = inr refl
implies true false h = cc
implies false b h = inl refl

targets-Pairs :
    (standard : Bool) (disks : List Bytes) (binds : List Bind) (tmpfs : List Bytes)
    → validate_mount_targets standard disks binds tmpfs ≡ ok tt
    → Pairs Apart
        ((if standard then standard_targets else []) ++ (disks ++ (map bind_target binds ++ tmpfs)))
unfolding validate_mount_targets validate_target_paths
targets-Pairs standard disks binds tmpfs e = Separate-Pairs _ (Separate-of_validated [] _ e)

-- The arguments of the loops in `finish`.
All-passes :
    {A : Type 0} (P : A → Type 0) (xs : List A) (f : A → Result ConfigError (Unit {0}))
    → ((x : A) → f x ≡ ok tt → P x)
    → All (λ x. f x ≡ ok tt) xs
    → All P xs
All-passes P [] f h a = tt
All-passes P (x ∷ xs) f h a = (h x a.0, All-passes P xs f h a.1)

loop-passes :
    {A : Type 0} (P : A → Type 0) (xs : List A) (f : A → Result ConfigError (Unit {0}))
    → ((x : A) → f x ≡ ok tt → P x)
    → for_each xs f ≡ ok tt
    → All P xs
loop-passes P xs f h e = All-passes P xs f h ((for_each_iff xs f).0 e)

finish-IsConfig :
    (o : Options) (executable : Bytes) (rest : List Bytes) (c : Config)
    → finish o executable rest ≡ ok c
    → IsConfig c
unfolding finish
finish-IsConfig o executable rest c e =
    let (rootfs, has_rootfs, e₁) =
      >>=-eq-ok (ok_or o.rootfs (ConfigError.missing_option (ascii "--rootfs"))) _ e in
    let (root, e₂) = (then_iff (validate_outer_path (ascii "rootfs") rootfs) _ c).0 e₁ in
    let (device, e₃) =
      (then_iff (when_some o.overlay_device (validate_outer_path (ascii "overlay device"))) _ c).0
        e₂ in
    let (id, e₄) = (then_iff (when_some o.overlay_id validate_overlay_id) _ c).0 e₃ in
    let (has_id, e₅) =
      (guard-bind_iff (not (is_some o.overlay_device && not (is_some o.overlay_id))) _ _ c).0 e₄ in
    let (has_device, e₆) =
      (guard-bind_iff (not (not (is_empty o.disk_mounts) && not (is_some o.overlay_device))) _ _
          c).0
        e₅ in
    let (workdir, e₇) =
      (then_iff (validate_inner_path (ascii "workdir") o.workdir true) _ c).0 e₆ in
    let (command, e₈) =
      (then_iff (validate_inner_path (ascii "command") executable false) _ c).0 e₇ in
    let (disks, e₉) =
      (then_iff
          (for_each o.disk_mounts
            (λ target. validate_inner_path (ascii "disk mount target") target false))
          _ c).0
        e₈ in
    let (binds, f₁) = (then_iff (for_each o.binds validate_bind_paths) _ c).0 e₉ in
    let (tmpfs, f₂) =
      (then_iff
          (for_each o.tmpfs (λ target. validate_inner_path (ascii "tmpfs target") target false)) _
          c).0
        f₁ in
    let (targets, f₃) =
      (then_iff (validate_mount_targets o.standard_mounts o.disk_mounts o.binds o.tmpfs) _ c).0
        f₂ in
    let (user, selected, f₄) = >>=-eq-ok (select_user o.user_name o.uid o.gid) _ f₃ in
    let same : record {
      rootfs = rootfs;
      overlay_device = o.overlay_device;
      overlay_id = o.overlay_id;
      workdir = o.workdir;
      user = user;
      standard_mounts = o.standard_mounts;
      disk_mounts = o.disk_mounts;
      binds = o.binds;
      tmpfs = o.tmpfs;
      command = executable ∷ rest;
    }
        ≡ c =
      cc in
    subst IsConfig same (record {
      rootfs = outer-IsClean (ascii "rootfs") rootfs root;
      overlay_device =
          when_some-passes IsClean o.overlay_device _ (outer-IsClean (ascii "overlay device"))
            device;
      overlay_id = when_some-passes IsOverlayId o.overlay_id _ validate_overlay_id_sound id;
      device_has_id = implies (is_some o.overlay_device) (is_some o.overlay_id) has_id;
      disks_have_device =
          implies (not (is_empty o.disk_mounts)) (is_some o.overlay_device) has_device;
      workdir = inner-clean (ascii "workdir") o.workdir true workdir;
      disk_mounts =
          loop-passes IsClean o.disk_mounts _ (λ x. inner-clean (ascii "disk mount target") x false)
            disks;
      binds = loop-passes IsCleanBind o.binds _ bind_paths-IsCleanBind binds;
      tmpfs = loop-passes IsClean o.tmpfs _ (λ x. inner-clean (ascii "tmpfs target") x false) tmpfs;
      apart = targets-Pairs o.standard_mounts o.disk_mounts o.binds o.tmpfs targets;
      executable = (executable, rest, refl, inner-clean (ascii "command") executable false command);
    })

-- A configuration that `parse_args` yields has clean absolute paths everywhere, an overlay id of 1
-- to 256 bytes where it has a device, a device where it has disk mounts, a command, and mount
-- targets no two of which are equal or nested.
pub parse_args-IsConfig :
    (arguments : List Bytes) (c : Config) → parse_args arguments ≡ ok c → IsConfig c
unfolding parse_args with_command
parse_args-IsConfig arguments c e =
    let (scanned, found, e₁) = >>=-eq-ok (scan (length arguments) no_options arguments) _ e in
    go scanned.0 scanned.1 e₁
  where
    go : (o : Options) (command : Option (List Bytes)) → with_command o command ≡ ok c → IsConfig c
    go o none f = cc
    go o (some []) f = cc
    go o (some (executable ∷ rest)) f = finish-IsConfig o executable rest c f
