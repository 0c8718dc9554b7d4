-- ===== src/Rust/Path/Proper.antt =====
-- The names that stand in the components of a path.
use sandcamp.Base.{
  ℕ, ◌≡◌, refl, Bool, true, false, List, [], ◌∷◌, ◌==◌, arith, if◌then◌else◌, if-cases, Bytes,
  ascii, bytes_eq, All, any, Option, none, some, subst,
}
use sandcamp.Rust.Bytes.{split_on, contains, cons_head}
use sandcamp.Rust.Path.{
  Component, root_dir, cur_dir, parent_dir, normal, add_segment, body_components,
  relative_components, is_absolute, components, add_front, split_last, parent_part, name_part,
  parent, file_name,
}

-- A name of a directory entry: not empty, no slash in it, and neither "." nor "..".
abbrev pub IsName : Bytes → Type 0
IsName name =
    (contains b'/' name ≡ false)
    × (bytes_eq name [] ≡ false)
    × (bytes_eq name (ascii ".") ≡ false)
    × (bytes_eq name (ascii "..") ≡ false)

abbrev pub IsProper : Component → Type 0
IsProper (normal name) = IsName name
IsProper _ = Unit

abbrev Lacks : ℕ → Bytes → Type 0
Lacks c w = contains c w ≡ false

split_on-Lacks : (c : ℕ) (s : Bytes) → All (Lacks c) (split_on c s)
unfolding split_on contains any
split_on-Lacks c [] = (refl, tt)
split_on-Lacks c (x ∷ xs) = go (split_on c xs) (x == c) refl (split_on-Lacks c xs)
  where
    go :
        (ws : List Bytes) (b : Bool)
        → (x == c) ≡ b
        → All (Lacks c) ws
        → All (Lacks c) (if b then [] ∷ ws else cons_head x ws)
    go ws true e h = (refl, h)
    go [] false e h = (ground (arith, e), tt)
    go (w ∷ ws) false e h = (ground (arith, e, h.0), h.1)

add_segment-IsProper :
    (s : Bytes) (rest : List Component)
    → Lacks b'/' s
    → All IsProper rest
    → All IsProper (add_segment s rest)
unfolding add_segment
add_segment-IsProper s rest l h =
    if-cases (All IsProper) (bytes_eq s []) rest _ (λ _. h)
      (λ e.
        if-cases (All IsProper) (bytes_eq s (ascii ".")) rest _ (λ _. h)
          (λ f.
            if-cases (All IsProper) (bytes_eq s (ascii "..")) (parent_dir ∷ rest) (normal s ∷ rest)
              (λ _. (tt, h)) (λ g. ((l, e, f, g), h))))

body_components-IsProper :
    (ss : List Bytes) → All (Lacks b'/') ss → All IsProper (body_components ss)
unfolding body_components
body_components-IsProper [] h = tt
body_components-IsProper (s ∷ ss) h =
    add_segment-IsProper s (body_components ss) h.0 (body_components-IsProper ss h.1)

relative_components-IsProper :
    (ss : List Bytes) → All (Lacks b'/') ss → All IsProper (relative_components ss)
unfolding relative_components
relative_components-IsProper [] h = tt
relative_components-IsProper (s ∷ ss) h =
    let body = body_components-IsProper ss h.1 in
    if-cases (All IsProper) (bytes_eq s (ascii ".")) (cur_dir ∷ body_components ss) _
      (λ _. (tt, body)) (λ _. add_segment-IsProper s (body_components ss) h.0 body)

pub components-IsProper : (path : Bytes) → All IsProper (components path)
unfolding components
components-IsProper path =
    let parts = split_on-Lacks b'/' path in
    if-cases (All IsProper) (is_absolute path) (root_dir ∷ body_components (split_on b'/' path)) _
      (λ _. (tt, body_components-IsProper (split_on b'/' path) parts))
      (λ _. relative_components-IsProper (split_on b'/' path) parts)

abbrev AllLast : (P : Component → Type 0) → Option (List Component × Component) → Type 0
AllLast P none = Unit
AllLast P (some (front, last)) = All P front × P last

split_last-All :
    (P : Component → Type 0) (cs : List Component) → All P cs → AllLast P (split_last cs)
unfolding split_last
split_last-All P [] h = tt
split_last-All P (c ∷ cs) h = go (split_last cs) (split_last-All P cs h.1)
  where
    go : (o : Option (List Component × Component)) → AllLast P o → AllLast P (add_front c o)
    go none g = (tt, h.0)
    go (some (front, last)) g = ((h.0, g.0), g.1)

-- The name of a path and its parents are proper.
pub file_name-IsName : (path name : Bytes) → file_name path ≡ some name → IsName name
unfolding file_name
file_name-IsName path name e =
    go (split_last (components path))
      (split_last-All IsProper (components path) (components-IsProper path)) e
  where
    go :
        (o : Option (List Component × Component))
        → AllLast IsProper o
        → name_part o ≡ some name
        → IsName name
    go (some (front, normal n)) h f = let same : n ≡ name = cc in subst IsName same h.1
    go (some (front, root_dir)) h f = cc
    go (some (front, cur_dir)) h f = cc
    go (some (front, parent_dir)) h f = cc
    go none h f = cc

pub parent-IsProper : (path : Bytes) (cs : List Component) → parent path ≡ some cs → All IsProper cs
unfolding parent
parent-IsProper path cs e =
    go (split_last (components path))
      (split_last-All IsProper (components path) (components-IsProper path)) e
  where
    go :
        (o : Option (List Component × Component))
        → AllLast IsProper o
        → parent_part o ≡ some cs
        → All IsProper cs
    go (some (front, normal n)) h f = let same : front ≡ cs = cc in subst (All IsProper) same h.0
    go (some (front, cur_dir)) h f = let same : front ≡ cs = cc in subst (All IsProper) same h.0
    go (some (front, parent_dir)) h f = let same : front ≡ cs = cc in subst (All IsProper) same h.0
    go (some (front, root_dir)) h f = cc
    go none h f = cc
