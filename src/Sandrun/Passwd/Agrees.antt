-- ===== src/Sandrun/Passwd/Agrees.antt =====
-- Sandrun reads a passwd text as campd does.
use sandcamp.Base.{
  ℕ, suc, ◌≡◌, refl, sym, subst, inl, inr, Bool, true, false, not, Option, none, some, List, [],
  ◌∷◌, ◌==◌, Bytes, Bool-cases, is_some, Result, ok, err, ◌>>=◌, ◌>>◌, guard, ok_or,
}
use sandcamp.Rust.Bytes.{split_on, lines}
use sandcamp.Rust.Int.{u32_max, parse_u32}
use sandcamp.Campd.Spec.{NumericUser}
use sandcamp.Campd.Passwd as Campd
use sandcamp.Campd.Passwd.{
  RuntimeError, parse_main_passwd_id, skips_line, names_user, read_fields, read_line, read_lines,
  parse_main_passwd,
}
use sandcamp.Sandrun.Passwd.{
  UserIdentity, PasswdError, duplicated, not_seven_fields, invalid_uid, invalid_gid, not_found,
  parse_passwd_id, is_skipped, is_of_user, read_entry, passwd_line, passwd_lines, parse_passwd,
}

-- The same outcome: the same ids, or errors of the same kind at the same line.
abbrev pub Same : Result PasswdError UserIdentity → Result RuntimeError NumericUser → Type 0
Same (ok u) (ok v) = (u.uid ≡ v.uid) × (u.gid ≡ v.gid)
Same (err (duplicated n)) (err (Campd.name_duplicated m)) = n ≡ m
Same (err (not_seven_fields n)) (err (Campd.fields_not_seven m)) = n ≡ m
Same (err (invalid_uid n)) (err (Campd.uid_invalid m)) = n ≡ m
Same (err (invalid_gid n)) (err (Campd.gid_invalid m)) = n ≡ m
Same (err (not_found a)) (err (Campd.user_not_found b)) = a ≡ b
Same _ _ = ⊥

-- The same beside a line that has been found or not.
abbrev SameFound : Option UserIdentity → Option NumericUser → Type 0
SameFound none none = Unit
SameFound (some u) (some v) = (u.uid ≡ v.uid) × (u.gid ≡ v.gid)
SameFound _ _ = ⊥

-- Both readers of an id, at errors of their own.
abbrev SameId : PasswdError → RuntimeError → Result PasswdError ℕ → Result RuntimeError ℕ → Type 0
SameId a b (ok m) (ok n) = m ≡ n
SameId a b (err x) (err y) = (x ≡ a) × (y ≡ b)
SameId a b _ _ = ⊥

parse_id-SameId :
    (value : Bytes) (a : PasswdError) (b : RuntimeError)
    → SameId a b (parse_passwd_id value a) (parse_main_passwd_id value b)
unfolding parse_passwd_id parse_main_passwd_id
parse_id-SameId value a b = go (parse_u32 value)
  where
    end : (t : Bool) (n : ℕ) → SameId a b (guard t a >> ok n) (guard t b >> ok n)
    end true n = refl
    end false n = (refl, refl)

    go :
        (found : Option ℕ)
        → SameId a b
            (ok_or found a >>= λ n. (guard (not (n == u32_max)) a >> ok n))
            (ok_or found b >>= λ n. (guard (not (n == u32_max)) b >> ok n))
    go none = (refl, refl)
    go (some n) = end (not (n == u32_max)) n

pair-Same :
    (n : ℕ) (a b : Result PasswdError ℕ) (c d : Result RuntimeError ℕ)
    → SameId (invalid_uid n) (Campd.uid_invalid n) a c
    → SameId (invalid_gid n) (Campd.gid_invalid n) b d
    → Same
        (a >>= λ u. b >>= λ g. ok (record { uid = u; gid = g }))
        (c >>= λ u. d >>= λ g. ok (record { uid = u; gid = g }))
pair-Same n (ok u) (ok g) (ok v) (ok h) i j = (i, j)
pair-Same n (ok u) (err x) (ok v) (err y) i j =
    subst (λ (p : PasswdError × RuntimeError). Same (err p.0) (err p.1))
      (λ t. (sym j.0 t, sym j.1 t)) refl
pair-Same n (err x) b (err y) d i j =
    subst (λ (p : PasswdError × RuntimeError). Same (err p.0) (err p.1))
      (λ t. (sym i.0 t, sym i.1 t)) refl
pair-Same n (ok u) (ok g) (ok v) (err y) i j = absurd j
pair-Same n (ok u) (err x) (ok v) (ok h) i j = absurd j
pair-Same n (ok u) b (err y) d i j = absurd i
pair-Same n (err x) b (ok v) d i j = absurd i

fields-Same : (n : ℕ) (fs : List Bytes) → Same (read_entry n fs) (read_fields n fs)
unfolding read_entry read_fields
fields-Same n (_ ∷ _ ∷ uid ∷ gid ∷ _ ∷ _ ∷ _ ∷ []) =
    pair-Same n (parse_passwd_id uid (invalid_uid n)) (parse_passwd_id gid (invalid_gid n))
      (parse_main_passwd_id uid (Campd.uid_invalid n))
      (parse_main_passwd_id gid (Campd.gid_invalid n))
      (parse_id-SameId uid (invalid_uid n) (Campd.uid_invalid n))
      (parse_id-SameId gid (invalid_gid n) (Campd.gid_invalid n))
fields-Same n [] = refl
fields-Same n (_ ∷ []) = refl
fields-Same n (_ ∷ _ ∷ []) = refl
fields-Same n (_ ∷ _ ∷ _ ∷ []) = refl
fields-Same n (_ ∷ _ ∷ _ ∷ _ ∷ []) = refl
fields-Same n (_ ∷ _ ∷ _ ∷ _ ∷ _ ∷ []) = refl
fields-Same n (_ ∷ _ ∷ _ ∷ _ ∷ _ ∷ _ ∷ []) = refl
fields-Same n (_ ∷ _ ∷ _ ∷ _ ∷ _ ∷ _ ∷ _ ∷ _ ∷ _) = refl

-- A line of the user, and the lines behind it.
taken-Same :
    (a : Result PasswdError UserIdentity) (b : Result RuntimeError NumericUser)
    (rest : Option UserIdentity → Result PasswdError UserIdentity)
    (others : Option NumericUser → Result RuntimeError NumericUser)
    → Same a b
    → ((f : Option UserIdentity) (g : Option NumericUser)
        → SameFound f g
        → Same (rest f) (others g))
    → Same ((a >>= λ u. ok (some u)) >>= rest) ((b >>= λ u. ok (some u)) >>= others)
taken-Same (ok u) (ok v) rest others h k = k (some u) (some v) h
taken-Same (err x) (err y) rest others h k = h
taken-Same (ok u) (err y) rest others h k = absurd h
taken-Same (err (duplicated x)) (ok v) rest others h k = absurd h
taken-Same (err (not_seven_fields x)) (ok v) rest others h k = absurd h
taken-Same (err (invalid_uid x)) (ok v) rest others h k = absurd h
taken-Same (err (invalid_gid x)) (ok v) rest others h k = absurd h
taken-Same (err (not_found x)) (ok v) rest others h k = absurd h

is_skipped-same : (line : Bytes) → is_skipped line ≡ skips_line line
unfolding is_skipped skips_line
is_skipped-same [] = refl
is_skipped-same (c ∷ line) = refl

is_of_user-same :
    (user : Bytes) (fields : List Bytes) → is_of_user user fields ≡ names_user user fields
unfolding is_of_user names_user
is_of_user-same user [] = refl
is_of_user-same user (field ∷ fields) = refl

lines-Same :
    (user : Bytes) (n : ℕ) (ls : List Bytes) (f : Option UserIdentity) (g : Option NumericUser)
    → SameFound f g
    → Same (passwd_lines user n f ls) (read_lines user n g ls)
unfolding passwd_lines read_lines passwd_line read_line
lines-Same user n [] none none h = refl
lines-Same user n [] (some u) (some v) h = h
lines-Same user n [] none (some v) h = absurd h
lines-Same user n [] (some u) none h = absurd h
lines-Same user n (line ∷ rest) f g h = elim (Bool-cases (skips_line line)) [
  | inl skipped ↦ rw (is_skipped-same line, skipped) (lines-Same user (suc n) rest f g h)
  | inr read ↦ elim (Bool-cases (names_user user (split_on b':' line))) [
    | inr other ↦
        rw (is_skipped-same line, read, is_of_user-same user (split_on b':' line), other)
          (lines-Same user (suc n) rest f g h)
    | inl named ↦
        rw (is_skipped-same line, read, is_of_user-same user (split_on b':' line), named)
          (found f g h (λ x y e. lines-Same user (suc n) rest x y e))
  ]
]
  where
    found :
        (x : Option UserIdentity) (y : Option NumericUser)
        → SameFound x y
        → ((p : Option UserIdentity) (q : Option NumericUser)
            → SameFound p q
            → Same (passwd_lines user (suc n) p rest) (read_lines user (suc n) q rest))
        → Same
            ((guard (not (is_some x)) (duplicated n)
                >> (read_entry n (split_on b':' line) >>= λ u. ok (some u)))
              >>= λ p. passwd_lines user (suc n) p rest)
            ((guard (not (is_some y)) (Campd.name_duplicated n)
                >> (read_fields n (split_on b':' line) >>= λ u. ok (some u)))
              >>= λ q. read_lines user (suc n) q rest)
    found none none e k =
        taken-Same (read_entry n (split_on b':' line)) (read_fields n (split_on b':' line))
          (λ p. passwd_lines user (suc n) p rest) (λ q. read_lines user (suc n) q rest)
          (fields-Same n (split_on b':' line)) k
    found (some u) (some v) e k = refl
    found none (some v) e k = absurd e
    found (some u) none e k = absurd e

-- For every text and user sandrun and campd find the same ids, or refuse the text for the same
-- reason at the same line.
pub parse_passwd-Same :
    (contents user : Bytes) → Same (parse_passwd contents user) (parse_main_passwd contents user)
unfolding parse_passwd parse_main_passwd
parse_passwd-Same contents user = lines-Same user 1 (lines contents) none none tt
