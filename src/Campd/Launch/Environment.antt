-- ===== src/Campd/Launch/Environment.antt =====
-- The environment of a started process.
use sandcamp.Base.{
  ◌≡◌, refl, ◌∙◌, ap, true, false, Option, none, some, List, [], ◌∷◌, arith, if◌then◌else◌, Bytes,
  bytes_eq, ok, >>=-eq-ok,
}
use sandcamp.Campd.Spec.{Env}
use sandcamp.Campd.Spec.Validate.{spec_environment}
use sandcamp.Campd.Launch.{
  ProcessSource, main, sidecar, LaunchProcess, Command, find_var, child_env, set_vars, start_main,
  start_command, build_command,
}

-- The value of a variable in a declared environment: the last, where a name comes twice.
abbrev pub declared_var : Bytes → Env → Option Bytes
declared_var key [] = none
declared_var key ((k, v) ∷ rest) = elim (declared_var key rest) [
  | some later ↦ some later
  | none ↦ if bytes_eq k key then some v else none
]

-- What a process has of the environment of campd: a main process all of it, a sidecar nothing.
abbrev pub inherits : ProcessSource → (Bytes → Option Bytes) → Bytes → Option Bytes
inherits (main user) inherited key = inherited key
inherits (sidecar s) inherited key = none

abbrev pub or_else : Option Bytes → Option Bytes → Option Bytes
or_else (some v) other = some v
or_else none other = other

-- The environment that a process is meant to have.
abbrev pub intended : LaunchProcess → (Bytes → Option Bytes) → Bytes → Option Bytes
intended p inherited key =
    if bytes_eq spec_environment key
    then none
    else or_else (declared_var key p.env) (inherits p.source inherited key)

-- What stands before a variable that is set.
abbrev over : Option Bytes → Option (Option Bytes) → Option (Option Bytes)
over (some v) other = some (some v)
over none other = other

find_var-set_vars :
    (key : Bytes) (env : Env) (vars : List (Bytes × Option Bytes))
    → find_var key (set_vars env vars) ≡ over (declared_var key env) (find_var key vars)
unfolding find_var set_vars
find_var-set_vars key [] vars = refl
find_var-set_vars key ((k, v) ∷ rest) vars =
    let later = find_var-set_vars key rest ((k, some v) ∷ vars) in ground arith

-- What `start_command` has told the builder before the variables are set.

start_main-Bare :
    (p : LaunchProcess) (command : List Bytes) (c : Command)
    → start_main p command ≡ ok c
    → (c.vars ≡ []) × (c.env_cleared ≡ false)
start_main-Bare p [] c e = cc
start_main-Bare p (x ∷ xs) c e = (cc, cc)

start_command-Bare :
    (sandrun : Bytes) (p : LaunchProcess) (source : ProcessSource) (c : Command)
    → start_command sandrun p source ≡ ok c
    → (c.vars ≡ [])
      × ((inherited : Bytes → Option Bytes) (key : Bytes)
          → (if c.env_cleared then none else inherited key) ≡ inherits source inherited key)
unfolding start_command
start_command-Bare sandrun p (main user) c e =
    let bare = start_main-Bare p p.command c e in (bare.0, λ inherited key. rw bare.1 refl)
start_command-Bare sandrun p (sidecar s) c e =
    let cleared : c.env_cleared ≡ true = cc in (cc, λ inherited key. rw cleared refl)

child_env-set :
    (p : LaunchProcess) (c : Command) (inherited : Bytes → Option Bytes) (key : Bytes)
    → c.vars ≡ []
    → (if c.env_cleared then none else inherited key) ≡ inherits p.source inherited key
    → child_env (record c { vars = (spec_environment, none) ∷ set_vars p.env c.vars }) inherited key
      ≡ intended p inherited key
unfolding child_env find_var
child_env-set p c inherited key bare cleared =
    let set = find_var-set_vars key p.env c.vars in
    let empty : find_var key c.vars ≡ none = rw bare refl in ground arith

-- The environment of every process that campd starts is the intended one: the specification is
-- never in it; a declared variable has its declared value; any other variable has, in a main
-- process, the value that campd has inherited, and is unset in a sidecar.
pub build_command-env :
    (sandrun : Bytes) (p : LaunchProcess) (c : Command) (inherited : Bytes → Option Bytes)
    (key : Bytes)
    → build_command sandrun p ≡ ok c
    → child_env c inherited key ≡ intended p inherited key
unfolding build_command
build_command-env sandrun p c inherited key e =
    let (base, started, same) = >>=-eq-ok (start_command sandrun p p.source) _ e in
    let bare = start_command-Bare sandrun p p.source base started in
    let equal : c ≡ record base { vars = (spec_environment, none) ∷ set_vars p.env base.vars } =
      cc in
    ap (λ x. child_env x inherited key) equal
    ∙ child_env-set p base inherited key bare.0 (bare.1 inherited key)
