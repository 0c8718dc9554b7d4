-- ===== src/Sandrun/Config/Laws.antt =====
-- The mount targets that sandrun accepts.
use sandcamp.Base.{◌≡◌, refl, List, [], ◌∷◌, ◌++◌, arith, Bytes, All, ok, for_each, >>-eq-ok_iff}
use sandcamp.Rust.Path.Apart.{Apart, Separate, clashes_iff}
use sandcamp.Sandrun.Config.{check_pair, validate_targets_from}

check_pair_of_Apart : (t previous : Bytes) → Apart t previous → check_pair t previous ≡ ok tt
unfolding check_pair
check_pair_of_Apart t previous h = ground (arith, (clashes_iff t previous).1 h)

all_pairs :
    (t : Bytes) (before : List Bytes)
    → All (Apart t) before
    → for_each before (check_pair t) ≡ ok tt
unfolding for_each
all_pairs t [] h = refl
all_pairs t (x ∷ xs) h = rw (check_pair_of_Apart t x h.0) (all_pairs t xs h.1)

-- Sandrun refuses no targets that are apart.
pub validate_targets_of_Separate :
    (before ts : List Bytes) → Separate before ts → validate_targets_from before ts ≡ ok tt
unfolding validate_targets_from
validate_targets_of_Separate before [] h = refl
validate_targets_of_Separate before (t ∷ ts) h =
    rw (all_pairs t before h.0) (validate_targets_of_Separate (before ++ t ∷ []) ts h.1)

Apart-of_check : (t previous : Bytes) → check_pair t previous ≡ ok tt → Apart t previous
unfolding check_pair
Apart-of_check t previous h = (clashes_iff t previous).0 (ground arith)

Apart-of_checks :
    (t : Bytes) (before : List Bytes)
    → for_each before (check_pair t) ≡ ok tt
    → All (Apart t) before
unfolding for_each
Apart-of_checks t [] h = tt
Apart-of_checks t (x ∷ xs) h =
    let (first, rest) = (>>-eq-ok_iff (check_pair t x) (for_each xs (check_pair t))).0 h in
    (Apart-of_check t x first, Apart-of_checks t xs rest)

-- And what it accepts is apart.
pub Separate-of_validated :
    (before ts : List Bytes) → validate_targets_from before ts ≡ ok tt → Separate before ts
unfolding validate_targets_from
Separate-of_validated before [] h = tt
Separate-of_validated before (t ∷ ts) h =
    let (first, rest) =
      (>>-eq-ok_iff (for_each before (check_pair t))
          (validate_targets_from (before ++ t ∷ []) ts)).0
        h in
    (Apart-of_checks t before first, Separate-of_validated (before ++ t ∷ []) ts rest)
