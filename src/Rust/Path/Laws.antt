-- ===== src/Rust/Path/Laws.antt =====
-- The comparisons of paths decide relations on the lists of components.
use sandcamp.Base.{◌≡◌, refl, ◌↔◌, true, List, [], ◌∷◌, ◌++◌, arith, Bytes, bytes_eq_iff}
use sandcamp.Rust.Path.{
  Component, root_dir, cur_dir, parent_dir, normal, component_eq, is_prefix, same_components,
  path_eq, starts_with, components,
}

pub component_eq_iff : (c d : Component) → (component_eq c d ≡ true) ↔ (c ≡ d)
unfolding component_eq
component_eq_iff (normal a) (normal b) = ground (arith, bytes_eq_iff a b)
component_eq_iff root_dir d = ground arith
component_eq_iff cur_dir d = ground arith
component_eq_iff parent_dir d = ground arith
component_eq_iff c d = ground arith

pub same_components_iff : (cs ds : List Component) → (same_components cs ds ≡ true) ↔ (cs ≡ ds)
unfolding same_components
same_components_iff [] [] = (λ _. refl, λ _. refl)
same_components_iff [] (d ∷ ds) = (λ h. cc, λ h. cc)
same_components_iff (c ∷ cs) [] = (λ h. cc, λ h. cc)
same_components_iff (c ∷ cs) (d ∷ ds) =
    ground (arith, component_eq_iff c d, same_components_iff cs ds)

-- The second list goes on where the first ends.
abbrev pub Extends : List Component → List Component → Type 0
Extends cs ds = (rest : List Component) × (ds ≡ cs ++ rest)

pub is_prefix→Extends : (cs ds : List Component) → is_prefix cs ds ≡ true → Extends cs ds
unfolding is_prefix
is_prefix→Extends [] ds h = (ds, refl)
is_prefix→Extends (c ∷ cs) [] h = cc
is_prefix→Extends (c ∷ cs) (d ∷ ds) h =
    let (rest, e) = is_prefix→Extends cs ds (ground arith) in
    (rest, ground (arith, component_eq_iff c d))

pub is_prefix-append : (cs rest : List Component) → is_prefix cs (cs ++ rest) ≡ true
unfolding is_prefix
is_prefix-append [] rest = refl
is_prefix-append (c ∷ cs) rest = ground (arith, component_eq_iff c c, is_prefix-append cs rest)

pub path_eq_iff : (p q : Bytes) → (path_eq p q ≡ true) ↔ (components p ≡ components q)
unfolding path_eq
path_eq_iff p q = same_components_iff (components p) (components q)

pub starts_with_iff :
    (p q : Bytes) → (starts_with p q ≡ true) ↔ Extends (components q) (components p)
unfolding starts_with
starts_with_iff p q = (
  is_prefix→Extends (components q) (components p),
  λ (rest, e). rw e (is_prefix-append (components q) rest),
)
