-- ===== src/Campd/Launch/Users.antt =====
-- The table of resolved users has every name that a main process asks for.
use sandcamp.Base.{
  ◌≡◌, subst, inl, inr, true, false, Option, none, some, List, [], ◌∷◌, arith, Bytes, bytes_eq_iff,
  Result, ok, ◌>>=◌, >>=-eq-ok, any, is_some, All, Bool-cases,
}
use sandcamp.Campd.Spec.{MainProcess, NumericUser}
use sandcamp.Campd.Passwd.{
  RuntimeError, Resolved, resolved_user, asked_name, resolve_name, resolve_names,
  resolve_main_users, parse_main_passwd, asks_name,
}

-- The table has the name, if there is one.
abbrev pub Has : Resolved → Option Bytes → Type 0
Has resolved none = Unit
Has resolved (some name) = is_some (resolved_user name resolved) ≡ true

abbrev pub HasUser : Resolved → MainProcess → Type 0
HasUser resolved p = Has resolved (asked_name p.user)

Has-cons :
    (resolved : Resolved) (key : Bytes) (user : NumericUser) (name : Option Bytes)
    → Has resolved name
    → Has ((key, user) ∷ resolved) name
unfolding resolved_user
Has-cons resolved key user none h = tt
Has-cons resolved key user (some name) h = ground arith

Has-new :
    (resolved : Resolved) (key : Bytes) (user : NumericUser)
    → Has ((key, user) ∷ resolved) (some key)
unfolding resolved_user
Has-new resolved key user = ground (arith, bytes_eq_iff key key)

-- The table behind a step has what it had, and the name of the step.
record Grows (old new : Resolved) (name : Option Bytes) : Type 0 where
  kept : (other : Option Bytes) → Has old other → Has new other
  there : Has new name

resolve_name-Grows :
    (contents : Bytes) (resolved : Resolved) (name : Option Bytes) (next : Resolved)
    → resolve_name contents resolved name ≡ ok next
    → Grows resolved next name
unfolding resolve_name
resolve_name-Grows contents resolved none next e =
    let same : resolved ≡ next = cc in
    subst (λ r. Grows resolved r none) same (record { kept = λ other h. h; there = tt })
resolve_name-Grows contents resolved (some name) next e =
    elim (Bool-cases (is_some (resolved_user name resolved))) [
      | inl has ↦
          let same : resolved ≡ next = ground arith in
          subst (λ r. Grows resolved r (some name)) same
            (record { kept = λ other h. h; there = has })
      | inr new ↦
          let found : (parse_main_passwd contents name >>= λ user. ok ((name, user) ∷ resolved))
              ≡ ok next =
            ground arith in
          let (user, parsed, same) = >>=-eq-ok (parse_main_passwd contents name) _ found in
          let same' : (name, user) ∷ resolved ≡ next = cc in
          subst (λ r. Grows resolved r (some name)) same'
            (record {
              kept = λ other h. Has-cons resolved name user other h;
              there = Has-new resolved name user;
            })
    ]

-- All that `resolve_names` has resolved, and what was there before.
resolve_names-HasUser :
    (contents : Bytes) (resolved : Resolved) (ps : List MainProcess) (final : Resolved)
    → resolve_names contents resolved ps ≡ ok final
    → ((name : Option Bytes) → Has resolved name → Has final name) × All (HasUser final) ps
unfolding resolve_names
resolve_names-HasUser contents resolved [] final e =
    let same : resolved ≡ final = cc in (λ name h. subst (λ r. Has r name) same h, tt)
resolve_names-HasUser contents resolved (p ∷ ps) final e =
    let (next, step, rest) = >>=-eq-ok (resolve_name contents resolved (asked_name p.user)) _ e in
    let grows = resolve_name-Grows contents resolved (asked_name p.user) next step in
    let later = resolve_names-HasUser contents next ps final rest in
    (λ name h. later.0 name (grows.kept name h), (later.0 (asked_name p.user) grows.there, later.1))

none_asked : (ps : List MainProcess) → any asks_name ps ≡ false → All (HasUser []) ps
unfolding any
none_asked [] e = tt
none_asked (p ∷ ps) e = (unasked (asked_name p.user) (ground arith), none_asked ps (ground arith))
  where
    unasked : (name : Option Bytes) → is_some name ≡ false → Has [] name
    unasked none e = tt
    unasked (some name) e = cc

pub resolved-HasUser :
    (read : Result RuntimeError Bytes) (ps : List MainProcess) (resolved : Resolved)
    → resolve_main_users read ps ≡ ok resolved
    → All (HasUser resolved) ps
unfolding resolve_main_users
resolved-HasUser read ps resolved e = elim (Bool-cases (any asks_name ps)) [
  | inl asked ↦
      let found : (read >>= λ contents. resolve_names contents [] ps) ≡ ok resolved =
        ground arith in
      let (contents, was_read, names) = >>=-eq-ok read _ found in
      (resolve_names-HasUser contents [] ps resolved names).1
  | inr unasked ↦
      let same : [] ≡ resolved = ground arith in
      subst (λ r. All (HasUser r) ps) same (none_asked ps unasked)
]
