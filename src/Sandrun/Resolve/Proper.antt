-- ===== src/Sandrun/Resolve/Proper.antt =====
-- The names that `resolve_target` yields are proper names.
use sandcamp.Base.{
  ℕ, zero, suc, ◌≡◌, subst, Option, none, some, List, [], ◌∷◌, ◌++◌, map, if-cases, Bytes, Result,
  ok, err, ok_or, All, All-append, >>=-eq-ok, not, guard, ltb, ◌+◌,
}
use sandcamp.Rust.Path.{Component, root_dir, cur_dir, parent_dir, normal, components, is_absolute}
use sandcamp.Rust.Path.Proper.{IsName, IsProper, components-IsProper}
use sandcamp.Sandrun.Resolve.{
  Names, Entry, unreadable, plain, link, ResolveError, target_escapes, link_escapes, too_many_links,
  normalize_from, reverse_onto, normalize_components, normalize_inner_path, redirect, Redirection,
  enter, find_link, link_target, follow, resolve_found, resolve_loop, resolve_target,
}

abbrev AreNames : Names → Type 0
AreNames names = All IsName names

-- What a computation yields is proper, if it yields anything.
abbrev Some : Option Names → Type 0
Some none = Unit
Some (some names) = AreNames names

normalize_from-Some :
    (names : Names) (cs : List Component)
    → AreNames names
    → All IsProper cs
    → Some (normalize_from names cs)
unfolding normalize_from
normalize_from-Some names [] h k = h
normalize_from-Some names (root_dir ∷ rest) h k = normalize_from-Some names rest h k.1
normalize_from-Some names (cur_dir ∷ rest) h k = normalize_from-Some names rest h k.1
normalize_from-Some names (normal name ∷ rest) h k =
    normalize_from-Some (name ∷ names) rest (k.0, h) k.1
normalize_from-Some [] (parent_dir ∷ rest) h k = tt
normalize_from-Some (_ ∷ names) (parent_dir ∷ rest) h k = normalize_from-Some names rest h.1 k.1

reverse_onto-AreNames : (xs ys : Names) → AreNames xs → AreNames ys → AreNames (reverse_onto xs ys)
unfolding reverse_onto
reverse_onto-AreNames [] ys h k = k
reverse_onto-AreNames (x ∷ xs) ys h k = reverse_onto-AreNames xs (x ∷ ys) h.1 (h.0, k)

normalize_components-Some : (cs : List Component) → All IsProper cs → Some (normalize_components cs)
unfolding normalize_components
normalize_components-Some cs h = go (normalize_from [] cs) (normalize_from-Some [] cs tt h)
  where
    go :
        (o : Option Names)
        → Some o
        → Some (elim o [ none ↦ none | some names ↦ some (reverse_onto names []) ])
    go none k = tt
    go (some names) k = reverse_onto-AreNames names [] k tt

normal-IsProper : (names : Names) → AreNames names → All IsProper (map normal names)
normal-IsProper [] h = tt
normal-IsProper (name ∷ names) h = (h.0, normal-IsProper names h.1)

redirect-IsProper :
    (parent : Names) (target : Bytes) (rest : Names)
    → AreNames parent
    → AreNames rest
    → All IsProper (redirect parent target rest)
unfolding redirect
redirect-IsProper parent target rest h k =
    All-append IsProper _ (map normal rest)
      (if-cases (All IsProper) (is_absolute target) (components target)
        (map normal parent ++ components target) (λ _. components-IsProper target)
        (λ _.
          All-append IsProper (map normal parent) (components target) (normal-IsProper parent h)
            (components-IsProper target)))
      (normal-IsProper rest k)

ok_or-AreNames :
    (o : Option Names) (e : ResolveError) (names : Names)
    → Some o
    → ok_or o e ≡ ok names
    → AreNames names
ok_or-AreNames none e names h f = cc
ok_or-AreNames (some a) e names h f = let same : a ≡ names = cc in subst AreNames same h

abbrev Found : Option Redirection → Type 0
Found none = Unit
Found (some (parent, read, rest)) = AreNames parent × AreNames rest

abbrev FoundAt : Result ResolveError (Option Redirection) → Type 0
FoundAt (ok found) = Found found
FoundAt (err e) = Unit

module _ (entry : Names → Entry) where
  enter-FoundAt :
      (e : Entry) (parent rest : Names) (later : Result ResolveError (Option Redirection))
      → AreNames parent
      → AreNames rest
      → FoundAt later
      → FoundAt (enter entry e parent rest later)
  unfolding enter
  enter-FoundAt (unreadable m) parent rest later h k l = tt
  enter-FoundAt plain parent rest later h k l = l
  enter-FoundAt (link read) parent rest later h k l = (h, k)

  find_link-FoundAt :
      (parent names : Names)
      → AreNames parent
      → AreNames names
      → FoundAt (find_link entry parent names)
  unfolding find_link
  find_link-FoundAt parent [] h k = tt
  find_link-FoundAt parent (name ∷ rest) h k =
      let here = parent ++ name ∷ [] in
      enter-FoundAt (entry here) parent rest (find_link entry here rest) h k.1
        (find_link-FoundAt here rest (All-append IsName parent (name ∷ []) h (k.0, tt)) k.1)

  follow-AreNames :
      (followed : ℕ) (r : Redirection) (next : ℕ × Names)
      → Found (some r)
      → follow entry followed r ≡ ok next
      → AreNames next.1
  unfolding follow
  follow-AreNames followed (parent, read, rest) next h e =
      let (u, few, e₁) = >>=-eq-ok (guard (not (ltb 40 (followed + 1))) too_many_links) _ e in
      let (target, f, e₂) = >>=-eq-ok (link_target entry read) _ e₁ in
      let (names, g, e₃) =
        >>=-eq-ok (ok_or (normalize_components (redirect parent target rest)) link_escapes) _ e₂ in
      let same : names ≡ next.1 = cc in
      subst AreNames same (
        ok_or-AreNames (normalize_components (redirect parent target rest)) link_escapes names
          (normalize_components-Some (redirect parent target rest)
            (redirect-IsProper parent target rest h.0 h.1))
          g)

  abbrev Yields : (ℕ → Names → Result ResolveError Names) → Type 0
  Yields rest =
      (n : ℕ) (names final : Names) → AreNames names → rest n names ≡ ok final → AreNames final

  resolve_found-AreNames :
      (rest : ℕ → Names → Result ResolveError Names) (followed : ℕ) (names final : Names)
      (found : Option Redirection)
      → Yields rest
      → AreNames names
      → Found found
      → resolve_found entry rest followed names found ≡ ok final
      → AreNames final
  unfolding resolve_found
  resolve_found-AreNames rest followed names final none h k g e =
      let same : names ≡ final = cc in subst AreNames same k
  resolve_found-AreNames rest followed names final (some r) h k g e =
      let (next, first, later) = >>=-eq-ok (follow entry followed r) _ e in
      h next.0 next.1 final (follow-AreNames followed r next g first) later

  resolve_loop-Yields : (rounds : ℕ) → Yields (resolve_loop entry rounds)
  unfolding resolve_loop
  resolve_loop-Yields zero followed names final h e = cc
  resolve_loop-Yields (suc rounds) followed names final h e =
      let (found, first, later) = >>=-eq-ok (find_link entry [] names) _ e in
      resolve_found-AreNames (resolve_loop entry rounds) followed names final found
        (resolve_loop-Yields rounds) h (subst FoundAt first (find_link-FoundAt [] names tt h)) later

  pub resolve_target-IsName :
      (target : Bytes) (names : Names) → resolve_target entry target ≡ ok names → All IsName names
  unfolding resolve_target normalize_inner_path
  resolve_target-IsName target names e =
      let (start, first, later) =
        >>=-eq-ok (ok_or (normalize_inner_path target) target_escapes) _ e in
      let inner =
        if-cases Some (not (is_absolute target)) none (normalize_components (components target))
          (λ _. tt)
          (λ _. normalize_components-Some (components target) (components-IsProper target)) in
      resolve_loop-Yields 41 0 start names
        (ok_or-AreNames (normalize_inner_path target) target_escapes start inner first) later
