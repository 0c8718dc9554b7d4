-- ===== src/Sandrun/Args/Laws.antt =====
-- The loop of `parse_args`: every round takes arguments, so the number of rounds is enough.
use native.Mathlib.Nat.{le_refl}
use sandcamp.Base.{
  String, ℕ, zero, suc, ◌≤◌, ◌≡◌, refl, Bool, true, false, Option, some, List, [], ◌∷◌, ◌++◌, arith,
  if◌then◌else◌, Bool-cases, inl, inr, Bytes, ascii, bytes_eq, length, Result, ok, err, ◌>>=◌,
}
use sandcamp.Sandrun.Config.{ConfigError}
use sandcamp.Sandrun.Args.{
  Options, path_value, read_user, read_uid, read_gid, read_bind, read_option, scan,
}

-- A successful step leaves at most `n` arguments.
abbrev Leaves : Result ConfigError (Options × List Bytes) → ℕ → Type 0
Leaves (ok (o, rest)) n = length rest ≤ n
Leaves (err e) n = Unit

record Shrinks (r : Result ConfigError (Options × List Bytes)) (n : ℕ) : Type 0 where
  fits : Leaves r n

Shrinks-if :
    (b : Bool) (x y : Result ConfigError (Options × List Bytes)) (n : ℕ)
    → Shrinks x n
    → Shrinks y n
    → Shrinks (if b then x else y) n
Shrinks-if true x y n hx hy = hx
Shrinks-if false x y n hx hy = hy

one_value :
    (option : Bytes) (f : Bytes → Options) (rest : List Bytes)
    → Shrinks (do v ← path_value option rest; ok (f v.0, v.1)) (length rest)
unfolding path_value
one_value option f [] = record { fits = tt }
one_value option f (v ∷ rest) = record { fits = omega arith }

read_user-Shrinks : (o : Options) (rest : List Bytes) → Shrinks (read_user o rest) (length rest)
unfolding read_user path_value
read_user-Shrinks o [] = record { fits = tt }
read_user-Shrinks o (v ∷ rest) = record { fits = ground arith }

read_uid-Shrinks : (o : Options) (rest : List Bytes) → Shrinks (read_uid o rest) (length rest)
unfolding read_uid path_value
read_uid-Shrinks o [] = record { fits = tt }
read_uid-Shrinks o (v ∷ rest) = record { fits = ground arith }

read_gid-Shrinks : (o : Options) (rest : List Bytes) → Shrinks (read_gid o rest) (length rest)
unfolding read_gid path_value
read_gid-Shrinks o [] = record { fits = tt }
read_gid-Shrinks o (v ∷ rest) = record { fits = ground arith }

read_bind-Shrinks :
    (option : Bytes) (readonly : Bool) (o : Options) (rest : List Bytes)
    → Shrinks (read_bind option readonly o rest) (length rest)
unfolding read_bind path_value
read_bind-Shrinks option readonly o [] = record { fits = tt }
read_bind-Shrinks option readonly o (s ∷ []) = record { fits = tt }
read_bind-Shrinks option readonly o (s ∷ t ∷ rest) = record { fits = omega arith }

read_option-Shrinks :
    (o : Options) (argument : Bytes) (rest : List Bytes)
    → Shrinks (read_option o argument rest) (length rest)
unfolding read_option
read_option-Shrinks o argument rest =
    Shrinks-if (at "--rootfs") _ _ _
      (one_value (ascii "--rootfs") (λ v. record o { rootfs = some v }) rest)
      (Shrinks-if (at "--overlay-device") _ _ _
        (one_value (ascii "--overlay-device") (λ v. record o { overlay_device = some v }) rest)
        (Shrinks-if (at "--overlay-id") _ _ _
          (one_value (ascii "--overlay-id") (λ v. record o { overlay_id = some v }) rest)
          (Shrinks-if (at "--workdir") _ _ _
            (one_value (ascii "--workdir") (λ v. record o { workdir = v }) rest)
            (Shrinks-if (at "--user") _ _ _ (read_user-Shrinks o rest) (
              Shrinks-if (at "--uid") _ _ _ (read_uid-Shrinks o rest) (
                Shrinks-if (at "--gid") _ _ _ (read_gid-Shrinks o rest) (
                  Shrinks-if (at "--standard-mounts") _ _ _
                    (record { fits = le_refl (length rest) })
                    (Shrinks-if (at "--disk-mount") _ _ _
                      (one_value (ascii "--disk-mount")
                        (λ v. record o { disk_mounts = o.disk_mounts ++ v ∷ [] }) rest)
                      (Shrinks-if (at "--bind") _ _ _
                        (read_bind-Shrinks (ascii "--bind") false o rest)
                        (Shrinks-if (at "--ro-bind") _ _ _
                          (read_bind-Shrinks (ascii "--ro-bind") true o rest)
                          (Shrinks-if (at "--tmpfs") _ _ _
                            (one_value (ascii "--tmpfs")
                              (λ v. record o { tmpfs = o.tmpfs ++ v ∷ [] }) rest)
                            (record { fits = tt }))))))))))))
  where
    at : String → Bool
    at option = bytes_eq argument (ascii option)

same_step :
    (f g : Options → List Bytes → Result ConfigError (Options × Option (List Bytes))) (n : ℕ)
    (step : Result ConfigError (Options × List Bytes))
    → ((o : Options) (rest : List Bytes) → length rest ≤ n → f o rest ≡ g o rest)
    → Shrinks step n
    → (step >>= λ next. f next.0 next.1) ≡ (step >>= λ next. g next.0 next.1)
same_step f g n (err e) h l = refl
same_step f g n (ok (o, rest)) h l = h o rest l.fits

-- Beyond the number of arguments the number of rounds changes nothing: the loop ends by its test.
pub scan_enough :
    (m n : ℕ) (o : Options) (arguments : List Bytes)
    → length arguments ≤ m
    → length arguments ≤ n
    → scan m o arguments ≡ scan n o arguments
unfolding scan
scan_enough zero zero o a h k = refl
scan_enough zero (suc n) o [] h k = refl
scan_enough zero (suc n) o (a ∷ rest) h k = elim h [ ]
scan_enough (suc m) zero o [] h k = refl
scan_enough (suc m) zero o (a ∷ rest) h k = elim k [ ]
scan_enough (suc m) (suc n) o [] h k = refl
scan_enough (suc m) (suc n) o (a ∷ rest) h k = elim (Bool-cases (bytes_eq a (ascii "--"))) [
  | inl found ↦ rw found
  | inr more ↦ rw more (
      same_step (scan m) (scan n) (length rest) (read_option o a rest)
        (λ o' rest' l. scan_enough m n o' rest' (omega arith) (omega arith))
        (read_option-Shrinks o a rest))
]
