-- ===== src/Handoff/Scan.antt =====
-- How sandrun's loop reads the arguments that campd writes, one group after another.
use sandcamp.Base.{
  ℕ, suc, ◌<◌, ◌≡◌, refl, ◌∙◌, Bool, true, false, Option, none, some, List, [], ◌∷◌, ◌++◌, map,
  arith, if◌then◌else◌, Bytes, ascii, bytes_eq, length, is_empty, Result, ok, append-nil,
  append_assoc,
}
use native.Mathlib.Nat.{le_refl}
use sandcamp.Rust.Int.{u32_max, print_u32}
use sandcamp.Campd.Spec as Spec
use sandcamp.Campd.Spec.{named, numeric}
use sandcamp.Campd.Launch.{
  overlay_arguments, disk_arguments, bind_option, bind_arguments, workdir_arguments,
}
use sandcamp.Sandrun.Config.{ConfigError, Bind, valid_user_name}
use sandcamp.Sandrun.Args.{
  Options, path_value, read_user, read_uid, read_gid, read_bind, read_option, scan,
}
use sandcamp.Sandrun.Args.Laws.{scan_enough}
use sandcamp.Handoff.Checks.{parse_user_id-print_u32}

-- The loop over all the arguments.
abbrev pub scan_all : Options → List Bytes → Result ConfigError (Options × Option (List Bytes))
scan_all o arguments = scan (length arguments) o arguments

scan_rest : (o : Options) (rest : List Bytes) → scan (suc (length rest)) o rest ≡ scan_all o rest
scan_rest o rest = scan_enough (suc (length rest)) (length rest) o rest (omega arith) (le_refl _)

run_scan : Unit {0}
unfolding scan read_option path_value bytes_eq read_user read_uid read_gid read_bind
run_scan = tt

pub scan-rootfs :
    (o : Options) (v : Bytes) (rest : List Bytes)
    → scan_all o (ascii "--rootfs" ∷ v ∷ rest) ≡ scan_all (record o { rootfs = some v }) rest
unfolding run_scan
scan-rootfs o v rest = scan_rest (record o { rootfs = some v }) rest

pub scan-overlay_device :
    (o : Options) (v : Bytes) (rest : List Bytes)
    → scan_all o (ascii "--overlay-device" ∷ v ∷ rest)
      ≡ scan_all (record o { overlay_device = some v }) rest
unfolding run_scan
scan-overlay_device o v rest = scan_rest (record o { overlay_device = some v }) rest

pub scan-overlay_id :
    (o : Options) (v : Bytes) (rest : List Bytes)
    → scan_all o (ascii "--overlay-id" ∷ v ∷ rest)
      ≡ scan_all (record o { overlay_id = some v }) rest
unfolding run_scan
scan-overlay_id o v rest = scan_rest (record o { overlay_id = some v }) rest

pub scan-workdir :
    (o : Options) (v : Bytes) (rest : List Bytes)
    → scan_all o (ascii "--workdir" ∷ v ∷ rest) ≡ scan_all (record o { workdir = v }) rest
unfolding run_scan
scan-workdir o v rest = scan_rest (record o { workdir = v }) rest

pub scan-disk_mount :
    (o : Options) (v : Bytes) (rest : List Bytes)
    → scan_all o (ascii "--disk-mount" ∷ v ∷ rest)
      ≡ scan_all (record o { disk_mounts = o.disk_mounts ++ v ∷ [] }) rest
unfolding run_scan
scan-disk_mount o v rest = scan_rest (record o { disk_mounts = o.disk_mounts ++ v ∷ [] }) rest

pub scan-standard_mounts :
    (o : Options) (rest : List Bytes)
    → scan_all o (ascii "--standard-mounts" ∷ rest)
      ≡ scan_all (record o { standard_mounts = true }) rest
unfolding run_scan
scan-standard_mounts o rest = refl

pub scan-user :
    (o : Options) (v : Bytes) (rest : List Bytes)
    → valid_user_name v ≡ true
    → o.user_name ≡ none
    → scan_all o (ascii "--user" ∷ v ∷ rest) ≡ scan_all (record o { user_name = some v }) rest
unfolding run_scan
scan-user o v rest valid first =
    rw (valid, first) (scan_rest (record o { user_name = some v }) rest)

pub scan-uid :
    (o : Options) (id : ℕ) (rest : List Bytes)
    → id < u32_max
    → o.uid ≡ none
    → scan_all o (ascii "--uid" ∷ print_u32 id ∷ rest) ≡ scan_all (record o { uid = some id }) rest
unfolding run_scan
scan-uid o id rest fits first =
    rw (parse_user_id-print_u32 (ascii "--uid") id fits, first)
      (scan_rest (record o { uid = some id }) rest)

pub scan-gid :
    (o : Options) (id : ℕ) (rest : List Bytes)
    → id < u32_max
    → o.gid ≡ none
    → scan_all o (ascii "--gid" ∷ print_u32 id ∷ rest) ≡ scan_all (record o { gid = some id }) rest
unfolding run_scan
scan-gid o id rest fits first =
    rw (parse_user_id-print_u32 (ascii "--gid") id fits, first)
      (scan_rest (record o { gid = some id }) rest)

-- A bind of the declaration, as sandrun holds it.
abbrev pub to_bind : Spec.Bind → Bind
to_bind b = record { source = b.source; target = b.target; readonly = b.readonly }

scan_rest_two :
    (o : Options) (rest : List Bytes) → scan (suc (suc (length rest))) o rest ≡ scan_all o rest
scan_rest_two o rest =
    scan_enough (suc (suc (length rest))) (length rest) o rest (omega arith) (le_refl _)

scan-read_only :
    (readonly : Bool) (o : Options) (s t : Bytes) (rest : List Bytes)
    → scan_all o (bind_option readonly ∷ s ∷ t ∷ rest)
      ≡ scan_all
          (record o {
            binds = o.binds ++ record { source = s; target = t; readonly = readonly } ∷ [];
          })
          rest
unfolding run_scan bind_option
scan-read_only true o s t rest = scan_rest_two _ rest
scan-read_only false o s t rest = scan_rest_two _ rest

pub scan-bind :
    (o : Options) (b : Spec.Bind) (rest : List Bytes)
    → scan_all o (bind_option b.readonly ∷ b.source ∷ b.target ∷ rest)
      ≡ scan_all (record o { binds = o.binds ++ to_bind b ∷ [] }) rest
scan-bind o b rest = scan-read_only b.readonly o b.source b.target rest

pub scan-separator :
    (o : Options) (rest : List Bytes) → scan_all o (ascii "--" ∷ rest) ≡ ok (o, some rest)
unfolding run_scan
scan-separator o rest = refl

pub scan-overlay_arguments :
    (o : Options) (device : Option Bytes) (rest : List Bytes)
    → o.overlay_device ≡ none
    → scan_all o (overlay_arguments device ++ rest)
      ≡ scan_all (record o { overlay_device = device }) rest
unfolding overlay_arguments
scan-overlay_arguments o none rest first = rw (← first)
scan-overlay_arguments o (some d) rest first = scan-overlay_device o d rest

pub scan-disk_arguments :
    (o : Options) (ts rest : List Bytes)
    → scan_all o (disk_arguments ts ++ rest)
      ≡ scan_all (record o { disk_mounts = o.disk_mounts ++ ts }) rest
unfolding disk_arguments
scan-disk_arguments o [] rest = rw append-nil
scan-disk_arguments o (t ∷ ts) rest =
    scan-disk_mount o t (disk_arguments ts ++ rest)
    ∙ scan-disk_arguments (record o { disk_mounts = o.disk_mounts ++ t ∷ [] }) ts rest
    ∙ rw (append_assoc o.disk_mounts (t ∷ []) ts)

pub scan-bind_arguments :
    (o : Options) (bs : List Spec.Bind) (rest : List Bytes)
    → scan_all o (bind_arguments bs ++ rest)
      ≡ scan_all (record o { binds = o.binds ++ map to_bind bs }) rest
unfolding bind_arguments
scan-bind_arguments o [] rest = rw append-nil
scan-bind_arguments o (b ∷ bs) rest =
    scan-bind o b (bind_arguments bs ++ rest)
    ∙ scan-bind_arguments (record o { binds = o.binds ++ to_bind b ∷ [] }) bs rest
    ∙ rw (append_assoc o.binds (to_bind b ∷ []) (map to_bind bs))

pub scan-workdir_arguments :
    (o : Options) (workdir : Bytes) (rest : List Bytes)
    → scan_all o (workdir_arguments workdir ++ rest)
      ≡ scan_all (record o { workdir = if is_empty workdir then o.workdir else workdir }) rest
unfolding workdir_arguments
scan-workdir_arguments o [] rest = refl
scan-workdir_arguments o (c ∷ w) rest = scan-workdir o (c ∷ w) rest
