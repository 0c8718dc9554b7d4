-- ===== src/Sandrun/Resolve/Bounded.antt =====
-- `resolve_target` ends: the 41st link is refused before the rounds run out.
use sandcamp.Base.{
  ℕ, zero, suc, ◌+◌, ◌≤◌, ◌≡◌, ◌≢◌, refl, Bool, true, false, not, Option, none, some, [], ◌∷◌, ◌++◌,
  arith, ltb, Bytes, Result, ok, err, ◌>>=◌, guard, ok_or, guard-bind_iff, >>=-eq-ok,
}
use sandcamp.Sandrun.Resolve.{
  Names, Entry, unreadable, plain, link, ResolveError, target_escapes, link_escapes, too_many_links,
  out_of_rounds, normalize_inner_path, normalize_components, redirect, Redirection, enter,
  find_link, link_target, follow, resolve_found, resolve_loop, resolve_target,
}

-- A result that is not for want of rounds.
abbrev Bounded : {A : Type 0} → Result ResolveError A → Type 0
Bounded r = r ≢ err out_of_rounds

Bounded-bind :
    {A B : Type 0} (m : Result ResolveError A) (f : A → Result ResolveError B)
    → Bounded m
    → ((a : A) → m ≡ ok a → Bounded (f a))
    → Bounded (m >>= f)
Bounded-bind (ok a) f h k = k a refl
Bounded-bind (err x) f h k = λ e. h (let same : x ≡ out_of_rounds = cc in cc)

guard-Bounded : (b : Bool) → Bounded (guard b too_many_links)
guard-Bounded true e = cc
guard-Bounded false e = cc

ok_or-Bounded :
    {A : Type 0} (o : Option A) (x : ResolveError) → x ≢ out_of_rounds → Bounded (ok_or o x)
ok_or-Bounded none x h e = h cc
ok_or-Bounded (some a) x h e = cc

module _ (entry : Names → Entry) where
  link_target-Bounded : (r : Result Bytes Bytes) → Bounded (link_target entry r)
  unfolding link_target
  link_target-Bounded (ok t) e = cc
  link_target-Bounded (err m) e = cc

  enter-Bounded :
      (found : Entry) (parent rest : Names) (later : Result ResolveError (Option Redirection))
      → Bounded later
      → Bounded (enter entry found parent rest later)
  unfolding enter
  enter-Bounded (unreadable m) parent rest later h e = cc
  enter-Bounded plain parent rest later h e = h e
  enter-Bounded (link read) parent rest later h e = cc

  find_link-Bounded : (parent names : Names) → Bounded (find_link entry parent names)
  unfolding find_link
  find_link-Bounded parent [] = λ e. cc
  find_link-Bounded parent (name ∷ rest) =
      let here = parent ++ name ∷ [] in
      enter-Bounded (entry here) parent rest (find_link entry here rest)
        (find_link-Bounded here rest)

  follow-Bounded : (followed : ℕ) (r : Redirection) → Bounded (follow entry followed r)
  unfolding follow
  follow-Bounded followed (parent, read, rest) =
      Bounded-bind (guard (not (ltb 40 (followed + 1))) too_many_links) _
        (guard-Bounded (not (ltb 40 (followed + 1))))
        (λ u f. Bounded-bind (link_target entry read) _ (link_target-Bounded read) (λ target g.
          Bounded-bind (ok_or (normalize_components (redirect parent target rest)) link_escapes) _
            (ok_or-Bounded (normalize_components (redirect parent target rest)) link_escapes
              (λ e. cc))
            (λ next k e. cc)))

  -- Each link counts, up to the fortieth.
  follow-counts :
      (followed : ℕ) (r : Redirection) (next : ℕ × Names)
      → follow entry followed r ≡ ok next
      → (next.0 ≡ followed + 1) × (next.0 ≤ 40)
  unfolding follow
  follow-counts followed (parent, read, rest) next e =
      let (few, e₁) = (guard-bind_iff (not (ltb 40 (followed + 1))) too_many_links _ next).0 e in
      let (target, f, e₂) = >>=-eq-ok (link_target entry read) _ e₁ in
      let (names, g, e₃) =
        >>=-eq-ok (ok_or (normalize_components (redirect parent target rest)) link_escapes) _ e₂ in
      let same : followed + 1 ≡ next.0 = cc in (omega (arith, same), ground (arith, few, same))

  resolve_loop-Bounded :
      (rounds followed : ℕ) (names : Names)
      → 41 ≤ rounds + followed
      → followed ≤ 40
      → Bounded (resolve_loop entry rounds followed names)
  unfolding resolve_loop
  resolve_loop-Bounded zero followed names a b = absurd (omega (arith, a, b))
  resolve_loop-Bounded (suc rounds) followed names a b =
      Bounded-bind (find_link entry [] names) _ (find_link-Bounded [] names)
        (λ found f. go found (λ n ns c d. resolve_loop-Bounded rounds n ns c d))
    where
      go :
          (found : Option Redirection)
          → ((n : ℕ) (ns : Names)
              → 41 ≤ rounds + n
              → n ≤ 40
              → Bounded (resolve_loop entry rounds n ns))
          → Bounded (resolve_found entry (resolve_loop entry rounds) followed names found)
      go none again = unfold resolve_found in λ e. cc
      go (some r) again =
          unfold resolve_found in
          Bounded-bind (follow entry followed r) _ (follow-Bounded followed r) (λ next f.
            let (counts, few) = follow-counts followed r next f in
            again next.0 next.1 (omega (arith, counts, a)) few)

  -- Resolving a target always ends, with a place, with an error of the file system, or with a
  -- refusal: the rounds of the model are enough.
  pub resolve_target-Bounded : (target : Bytes) → resolve_target entry target ≢ err out_of_rounds
  unfolding resolve_target
  resolve_target-Bounded target =
      Bounded-bind (ok_or (normalize_inner_path target) target_escapes) _
        (ok_or-Bounded (normalize_inner_path target) target_escapes (λ e. cc))
        (λ names f. resolve_loop-Bounded 41 0 names (omega arith) (omega arith))
