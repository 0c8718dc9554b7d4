-- ===== src/Sandrun/Resolve/Plain.antt =====
-- What `resolve_target` yields.
use sandcamp.Base.{
  ℕ, zero, suc, ◌≡◌, refl, subst, Option, none, some, [], ◌∷◌, ◌++◌, Bytes, Result, ok, ok_or,
  >>=-eq-ok, All,
}
use sandcamp.Rust.Path.Proper.{IsName}
use sandcamp.Sandrun.Resolve.Proper.{resolve_target-IsName}
use sandcamp.Sandrun.Resolve.{
  Names, Entry, unreadable, plain, link, ResolveError, target_escapes, normalize_inner_path,
  Redirection, enter, find_link, follow, resolve_found, resolve_loop, resolve_target,
}

-- Every place on the way below `parent` exists and is no symbolic link.
abbrev pub IsPlain : (entry : Names → Entry) → Names → Names → Type 0
IsPlain entry parent [] = Unit
IsPlain entry parent (name ∷ rest) =
    (entry (parent ++ name ∷ []) ≡ plain) × IsPlain entry (parent ++ name ∷ []) rest

module _ (entry : Names → Entry) where
  enter-plain :
      (found : Entry) (parent rest : Names) (later : Result ResolveError (Option Redirection))
      → enter entry found parent rest later ≡ ok none
      → (found ≡ plain) × (later ≡ ok none)
  unfolding enter
  enter-plain (unreadable m) parent rest later e = cc
  enter-plain plain parent rest later e = (refl, e)
  enter-plain (link read) parent rest later e = cc

  find_link-IsPlain :
      (parent names : Names) → find_link entry parent names ≡ ok none → IsPlain entry parent names
  unfolding find_link
  find_link-IsPlain parent [] e = tt
  find_link-IsPlain parent (name ∷ rest) e =
      let here = parent ++ name ∷ [] in
      let (first, later) = enter-plain (entry here) parent rest (find_link entry here rest) e in
      (first, find_link-IsPlain here rest later)

  IsPlain-find_link :
      (parent names : Names) → IsPlain entry parent names → find_link entry parent names ≡ ok none
  unfolding find_link enter
  IsPlain-find_link parent [] h = refl
  IsPlain-find_link parent (name ∷ rest) h =
      rw h.0 (IsPlain-find_link (parent ++ name ∷ []) rest h.1)

  -- A loop that yields plain paths only.
  abbrev Yields : (ℕ → Names → Result ResolveError Names) → Type 0
  Yields rest = (n : ℕ) (names final : Names) → rest n names ≡ ok final → IsPlain entry [] final

  resolve_found-IsPlain :
      (rest : ℕ → Names → Result ResolveError Names) (followed : ℕ) (names final : Names)
      (found : Option Redirection)
      → Yields rest
      → find_link entry [] names ≡ ok found
      → resolve_found entry rest followed names found ≡ ok final
      → IsPlain entry [] final
  unfolding resolve_found
  resolve_found-IsPlain rest followed names final none h f e =
      let same : names ≡ final = cc in subst (IsPlain entry []) same (find_link-IsPlain [] names f)
  resolve_found-IsPlain rest followed names final (some r) h f e =
      let (next, first, later) = >>=-eq-ok (follow entry followed r) _ e in
      h next.0 next.1 final later

  resolve_loop-IsPlain : (rounds : ℕ) → Yields (resolve_loop entry rounds)
  unfolding resolve_loop
  resolve_loop-IsPlain zero followed names final e = cc
  resolve_loop-IsPlain (suc rounds) followed names final e =
      let (found, first, later) = >>=-eq-ok (find_link entry [] names) _ e in
      resolve_found-IsPlain (resolve_loop entry rounds) followed names final found
        (resolve_loop-IsPlain rounds) first later

  -- A mount target that is resolved is one that exists below the root without a symbolic link on
  -- the way, and to which proper names alone lead, none of them "." or "..", so that the host path
  -- made of them stays inside the root.
  pub resolve_target-IsPlain :
      (target : Bytes) (names : Names)
      → resolve_target entry target ≡ ok names
      → IsPlain entry [] names × All IsName names
  unfolding resolve_target
  resolve_target-IsPlain target names e =
      let (start, first, later) =
        >>=-eq-ok (ok_or (normalize_inner_path target) target_escapes) _ e in
      (resolve_loop-IsPlain 41 0 start names later, resolve_target-IsName entry target names e)

  -- A target without a symbolic link on the way resolves to itself.
  pub resolve_target_of_IsPlain :
      (target : Bytes) (names : Names)
      → normalize_inner_path target ≡ some names
      → IsPlain entry [] names
      → resolve_target entry target ≡ ok names
  unfolding resolve_target resolve_loop resolve_found
  resolve_target_of_IsPlain target names e h = rw (e, IsPlain-find_link [] names h) refl
