-- ===== src/Campd/Passwd/Unique.antt =====
-- Which line of a passwd text gives a user's ids.
use sandcamp.Base.{
  ℕ, suc, ◌≡◌, ◌≢◌, ◌↔◌, refl, sym, ap, subst, inl, inr, Bool, true, false, not, ◌&&◌, ◌==◌, Option,
  none, some, List, [], ◌∷◌, arith, if◌then◌else◌, Bytes, ok, err, ◌>>=◌, ◌>>◌, guard, >>=-eq-ok,
  guard-bind_iff, Bool-cases, ok_or,
}
use sandcamp.Rust.Bytes.{split_on, lines}
use sandcamp.Rust.Int.{u32_max, parse_u32}
use sandcamp.Campd.Spec.{NumericUser}
use sandcamp.Campd.Passwd.{
  RuntimeError, uid_invalid, gid_invalid, name_duplicated, parse_main_passwd_id, skips_line,
  names_user, read_fields, read_line, read_lines, parse_main_passwd,
}

-- The lines that are not empty, are no comments, and whose first field is the name of the user.
abbrev pub selected : Bytes → Bytes → Bool
selected user line = not (skips_line line) && names_user user (split_on b':' line)

abbrev pub candidates : Bytes → List Bytes → List Bytes
candidates user [] = []
candidates user (line ∷ rest) =
    if selected user line then line ∷ candidates user rest else candidates user rest

-- An id: a number of `u32` that is not the reserved one.
abbrev pub IsId : Bytes → ℕ → Type 0
IsId text id = (parse_u32 text ≡ some id) × (id ≢ u32_max)

-- Seven fields, with the ids in the third and the fourth.
abbrev pub HasIds : List Bytes → NumericUser → Type 0
HasIds (_ ∷ _ ∷ uid ∷ gid ∷ _ ∷ _ ∷ _ ∷ []) u = IsId uid u.uid × IsId gid u.gid
HasIds _ u = ⊥

parse-IsId_iff :
    (text : Bytes) (reason : RuntimeError) (id : ℕ)
    → (parse_main_passwd_id text reason ≡ ok id) ↔ IsId text id
unfolding parse_main_passwd_id
parse-IsId_iff text reason id = go (parse_u32 text)
  where
    go :
        (found : Option ℕ)
        → ((ok_or found reason >>= λ n. (guard (not (n == u32_max)) reason >> ok n)) ≡ ok id)
          ↔ ((found ≡ some id) × (id ≢ u32_max))
    go none = (λ e. cc, λ e. cc)
    go (some n) = (
      λ e.
          let (fits, same) = (guard-bind_iff (not (n == u32_max)) reason (ok n) id).0 e in
          (ground arith, ground arith),
      λ e.
          let same : n ≡ id = cc in
          (guard-bind_iff (not (n == u32_max)) reason (ok n) id).1
            (ground (arith, e.1), ap ok same),
    )

seven_iff :
    (n : ℕ) (a b uid gid c d e : Bytes) (u : NumericUser)
    → (read_fields n (a ∷ b ∷ uid ∷ gid ∷ c ∷ d ∷ e ∷ []) ≡ ok u)
      ↔ (IsId uid u.uid × IsId gid u.gid)
unfolding read_fields
seven_iff n a b uid gid c d e u = (
  λ h.
      let (i, first, h₁) = >>=-eq-ok (parse_main_passwd_id uid (uid_invalid n)) _ h in
      let (j, second, h₂) = >>=-eq-ok (parse_main_passwd_id gid (gid_invalid n)) _ h₁ in
      let same : (i ≡ u.uid) × (j ≡ u.gid) = (cc, cc) in
      (
        subst (IsId uid) same.0 ((parse-IsId_iff uid (uid_invalid n) i).0 first),
        subst (IsId gid) same.1 ((parse-IsId_iff gid (gid_invalid n) j).0 second),
      ),
  λ h.
      let first = (parse-IsId_iff uid (uid_invalid n) u.uid).1 h.0 in
      let second = (parse-IsId_iff gid (gid_invalid n) u.gid).1 h.1 in rw (first, second) refl,
)

read_fields_iff :
    (n : ℕ) (fs : List Bytes) (u : NumericUser) → (read_fields n fs ≡ ok u) ↔ HasIds fs u
unfolding read_fields
read_fields_iff n (a ∷ b ∷ uid ∷ gid ∷ c ∷ d ∷ e ∷ []) u = seven_iff n a b uid gid c d e u
read_fields_iff n [] u = (λ h. cc, λ h. absurd h)
read_fields_iff n (_ ∷ []) u = (λ h. cc, λ h. absurd h)
read_fields_iff n (_ ∷ _ ∷ []) u = (λ h. cc, λ h. absurd h)
read_fields_iff n (_ ∷ _ ∷ _ ∷ []) u = (λ h. cc, λ h. absurd h)
read_fields_iff n (_ ∷ _ ∷ _ ∷ _ ∷ []) u = (λ h. cc, λ h. absurd h)
read_fields_iff n (_ ∷ _ ∷ _ ∷ _ ∷ _ ∷ []) u = (λ h. cc, λ h. absurd h)
read_fields_iff n (_ ∷ _ ∷ _ ∷ _ ∷ _ ∷ _ ∷ []) u = (λ h. cc, λ h. absurd h)
read_fields_iff n (_ ∷ _ ∷ _ ∷ _ ∷ _ ∷ _ ∷ _ ∷ _ ∷ _) u = (λ h. cc, λ h. absurd h)

-- The line that is the only candidate.
abbrev pub IsOnly : Bytes → List Bytes → NumericUser → Type 0
IsOnly user ls u = (line : Bytes) × (candidates user ls ≡ line ∷ []) × HasIds (split_on b':' line) u

passes_over :
    (user line : Bytes) (n : ℕ) (found : Option NumericUser)
    → selected user line ≡ false
    → read_line user n found line ≡ ok found
unfolding read_line
passes_over user line n found e = ground arith

takes :
    (user line : Bytes) (n : ℕ)
    → selected user line ≡ true
    → read_line user n none line ≡ (read_fields n (split_on b':' line) >>= λ u. ok (some u))
unfolding read_line
takes user line n e = ground arith

refuses :
    (user line : Bytes) (n : ℕ) (u : NumericUser)
    → selected user line ≡ true
    → read_line user n (some u) line ≡ err (name_duplicated n)
unfolding read_line
refuses user line n u e = ground arith

-- Behind the line of the user there must be no other.
found_iff :
    (user : Bytes) (n : ℕ) (v u : NumericUser) (ls : List Bytes)
    → (read_lines user n (some v) ls ≡ ok u) ↔ ((candidates user ls ≡ []) × (v ≡ u))
unfolding read_lines
found_iff user n v u [] = (λ e. (refl, cc), λ h. ap ok h.1)
found_iff user n v u (line ∷ rest) = elim (Bool-cases (selected user line)) [
  | inl taken ↦ rw (refuses user line n v taken, taken) (λ e. cc, λ h. cc)
  | inr other ↦ rw (passes_over user line n (some v) other, other) (found_iff user (suc n) v u rest)
]

taken_iff :
    (user : Bytes) (n : ℕ) (u : NumericUser) (fs rest : List Bytes)
    → (((read_fields n fs >>= λ v. ok (some v)) >>= λ found. read_lines user (suc n) found rest)
        ≡ ok u)
      ↔ ((candidates user rest ≡ []) × HasIds fs u)
taken_iff user n u fs rest = (
  λ e.
      let (found, first, later) = >>=-eq-ok (read_fields n fs >>= λ v. ok (some v)) _ e in
      let (v, read, same) = >>=-eq-ok (read_fields n fs) _ first in
      let same' : some v ≡ found = cc in
      let after : read_lines user (suc n) (some v) rest ≡ ok u =
        subst (λ x. read_lines user (suc n) x rest ≡ ok u) (sym same') later in
      let (alone, equal) = (found_iff user (suc n) v u rest).0 after in
      (alone, subst (HasIds fs) equal ((read_fields_iff n fs v).0 read)),
  λ h. rw ((read_fields_iff n fs u).1 h.1) ((found_iff user (suc n) u u rest).1 (h.0, refl)),
)

lines_iff :
    (user : Bytes) (n : ℕ) (u : NumericUser) (ls : List Bytes)
    → (read_lines user n none ls ≡ ok u) ↔ IsOnly user ls u
unfolding read_lines
lines_iff user n u [] = (λ e. cc, λ h. let nothing = h.1 in cc)
lines_iff user n u (line ∷ rest) = elim (Bool-cases (selected user line)) [
  | inl taken ↦
      let both = taken_iff user n u (split_on b':' line) rest in
      rw (takes user line n taken, taken)
        (
          λ e. let (alone, ids) = both.0 e in (line, ap (λ xs. line ∷ xs) alone, ids),
          λ h.
              let first : line ≡ h.0 = cc in
              both.1 (cc, subst (λ x. HasIds (split_on b':' x) u) (sym first) h.2),
        )
  | inr other ↦ rw (passes_over user line n none other, other) (lines_iff user (suc n) u rest)
]

-- A passwd text gives a user exactly the ids of the one line whose first field is the name, the
-- field ending at a colon or with the line: there is no second such line, and the line has seven
-- fields, of which the third and the fourth are numbers of `u32` other than the reserved one. Empty
-- lines, comments and lines with another first field do not matter.
pub parse_main_passwd_iff :
    (contents user : Bytes) (u : NumericUser)
    → (parse_main_passwd contents user ≡ ok u) ↔ IsOnly user (lines contents) u
unfolding parse_main_passwd
parse_main_passwd_iff contents user u = lines_iff user 1 u (lines contents)
