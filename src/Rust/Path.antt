-- ===== src/Rust/Path.antt =====
-- `std::path` on Unix: the components of a path, and the comparisons that go by components.
pub mod Laws
pub mod Apart
pub mod Proper
use sandcamp.Base.{
  ℕ, Bool, true, false, ◌&&◌, Option, none, some, List, [], ◌++◌, ◌∷◌, ◌==◌, if◌then◌else◌, Bytes,
  ascii, bytes_eq,
}
use sandcamp.Rust.Bytes.{split_on}

-- `Component::Prefix` occurs on Windows only.
pub data Component : Type 0 where
  root_dir cur_dir parent_dir : Component
  normal : Bytes → Component

-- One segment between slashes; an empty one and "." are dropped.
unfoldable pub add_segment : Bytes → List Component → List Component
add_segment s rest =
    if bytes_eq s []
    then rest
    else if bytes_eq s (ascii ".")
    then rest
    else if bytes_eq s (ascii "..")
    then parent_dir ∷ rest
    else normal s ∷ rest

unfoldable pub body_components : List Bytes → List Component
body_components [] = []
body_components (s ∷ ss) = add_segment s (body_components ss)

-- A relative path keeps a "." at its front.
unfoldable pub relative_components : List Bytes → List Component
relative_components [] = []
relative_components (s ∷ ss) =
    if bytes_eq s (ascii ".")
    then cur_dir ∷ body_components ss
    else add_segment s (body_components ss)

unfoldable pub is_absolute : Bytes → Bool
is_absolute [] = false
is_absolute (c ∷ _) = c == b'/'

unfoldable pub components : Bytes → List Component
components p =
    if is_absolute p
    then root_dir ∷ body_components (split_on b'/' p)
    else relative_components (split_on b'/' p)

unfoldable pub component_eq : Component → Component → Bool
component_eq root_dir root_dir = true
component_eq cur_dir cur_dir = true
component_eq parent_dir parent_dir = true
component_eq (normal a) (normal b) = bytes_eq a b
component_eq _ _ = false

-- The components of the first path stand at the front of the second's.
unfoldable pub is_prefix : List Component → List Component → Bool
is_prefix [] _ = true
is_prefix (c ∷ cs) [] = false
is_prefix (c ∷ cs) (d ∷ ds) = component_eq c d && is_prefix cs ds

unfoldable pub same_components : List Component → List Component → Bool
same_components [] [] = true
same_components (c ∷ cs) (d ∷ ds) = component_eq c d && same_components cs ds
same_components _ _ = false

-- `p == q`.
unfoldable pub path_eq : Bytes → Bytes → Bool
path_eq p q = same_components (components p) (components q)

-- `p.starts_with(q)`.
unfoldable pub starts_with : Bytes → Bytes → Bool
starts_with p q = is_prefix (components q) (components p)

-- `matches!(component, Component::RootDir | Component::Normal(_))`.
unfoldable pub is_root_or_normal : Component → Bool
is_root_or_normal root_dir = true
is_root_or_normal (normal _) = true
is_root_or_normal _ = false

unfoldable pub ends_open : Bytes → Bool
ends_open [] = true
ends_open (c ∷ []) = c == b'/'
ends_open (c ∷ d ∷ rest) = ends_open (d ∷ rest)

-- `Path::join`: an absolute path replaces the first, and a slash is put between if there is none.
unfoldable pub join : Bytes → Bytes → Bytes
join path name =
    if is_absolute name then name else if ends_open path then path ++ name else path ++ b'/' ∷ name

abbrev pub component_text : Component → Bytes
component_text root_dir = ascii "/"
component_text cur_dir = ascii "."
component_text parent_dir = ascii ".."
component_text (normal name) = name

unfoldable pub path_from : Bytes → List Component → Bytes
path_from path [] = path
path_from path (c ∷ cs) = path_from (join path (component_text c)) cs

abbrev pub add_front :
    Component → Option (List Component × Component) → Option (List Component × Component)
add_front c none = some ([], c)
add_front c (some (front, last)) = some (c ∷ front, last)

-- The components but the last, and the last.
unfoldable pub split_last : List Component → Option (List Component × Component)
split_last [] = none
split_last (c ∷ cs) = add_front c (split_last cs)

abbrev pub parent_part : Option (List Component × Component) → Option (List Component)
parent_part none = none
parent_part (some (front, root_dir)) = none
parent_part (some (front, _)) = some front

abbrev pub name_part : Option (List Component × Component) → Option Bytes
name_part (some (front, normal name)) = some name
name_part _ = none

-- `Path::parent`, as its components, and `Path::file_name`.
unfoldable pub parent : Bytes → Option (List Component)
parent path = parent_part (split_last (components path))

unfoldable pub file_name : Bytes → Option Bytes
file_name path = name_part (split_last (components path))
