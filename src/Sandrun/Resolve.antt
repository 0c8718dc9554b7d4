-- ===== src/Sandrun/Resolve.antt =====
-- cmd/sandrun/src/linux.rs: `resolve_target`, the place of a mount target below the root of an image.
-- A path inside the root is the list of its names; the file system is a function on such paths.
pub mod Plain
pub mod Bounded
pub mod Proper
pub mod Targets
use sandcamp.Base.{
  ℕ, zero, suc, ◌+◌, Bool, true, false, not, Option, none, some, List, [], ◌∷◌, ◌++◌, map, ltb,
  if◌then◌else◌, Bytes, Result, ok, err, ◌>>=◌, ◌>>◌, guard, ok_or,
}
use sandcamp.Rust.Path.{Component, root_dir, cur_dir, parent_dir, normal, is_absolute, components}

abbrev pub Names : Type 0
Names = List Bytes

-- What `symlink_metadata` and, at a symbolic link, `read_link` say; each may fail.
pub data Entry : Type 0 where
  unreadable : (message : Bytes) → Entry
  plain : Entry
  link : Result Bytes Bytes → Entry

pub data ResolveError : Type 0 where
  target_escapes link_escapes too_many_links : ResolveError
  resolve_failed readlink_failed : Bytes → ResolveError
  out_of_rounds : ResolveError

-- The names so far, the last one first; ".." at the root is an escape.
unfoldable pub normalize_from : Names → List Component → Option Names
normalize_from names [] = some names
normalize_from names (root_dir ∷ rest) = normalize_from names rest
normalize_from names (cur_dir ∷ rest) = normalize_from names rest
normalize_from names (normal name ∷ rest) = normalize_from (name ∷ names) rest
normalize_from [] (parent_dir ∷ rest) = none
normalize_from (_ ∷ names) (parent_dir ∷ rest) = normalize_from names rest

unfoldable pub reverse_onto : Names → Names → Names
reverse_onto [] names = names
reverse_onto (name ∷ rest) names = reverse_onto rest (name ∷ names)

unfoldable pub normalize_components : List Component → Option Names
normalize_components cs = elim (normalize_from [] cs) [
  | none ↦ none
  | some names ↦ some (reverse_onto names [])
]

unfoldable pub normalize_inner_path : Bytes → Option Names
normalize_inner_path path =
    if not (is_absolute path) then none else normalize_components (components path)

-- The path behind a link: the link, below the link's parent if it is relative, and what is left.
unfoldable pub redirect : Names → Bytes → Names → List Component
redirect parent target remaining =
    (if is_absolute target then components target else map normal parent ++ components target)
    ++ map normal remaining

-- A link on the way: its parent, what `read_link` says, and the names behind it.
abbrev pub Redirection : Type 0
Redirection = Names × Result Bytes Bytes × Names

module _ (entry : Names → Entry) where
  -- A name of the inner loop, by its entry, and what the loop finds behind it.
  unfoldable pub enter :
      Entry
      → Names
      → Names
      → Result ResolveError (Option Redirection)
      → Result ResolveError (Option Redirection)
  enter (unreadable message) parent rest later = err (resolve_failed message)
  enter plain parent rest later = later
  enter (link read) parent rest later = ok (some (parent, read, rest))

  -- The inner loop, up to the first link.
  unfoldable pub find_link : Names → Names → Result ResolveError (Option Redirection)
  find_link parent [] = ok none
  find_link parent (name ∷ rest) =
      let here = parent ++ name ∷ [] in enter (entry here) parent rest (find_link here rest)

  unfoldable pub link_target : Result Bytes Bytes → Result ResolveError Bytes
  link_target (err message) = err (readlink_failed message)
  link_target (ok target) = ok target

  -- `followed` behind a link, and the next path.
  unfoldable pub follow : ℕ → Redirection → Result ResolveError (ℕ × Names)
  follow followed (parent, read, rest) = do
    guard (not (ltb 40 (followed + 1))) too_many_links
    target ← link_target read
    next ← ok_or (normalize_components (redirect parent target rest)) link_escapes
    ok (followed + 1, next)

  -- What the loop does with what it has found.
  unfoldable pub resolve_found :
      (ℕ → Names → Result ResolveError Names)
      → ℕ
      → Names
      → Option Redirection
      → Result ResolveError Names
  resolve_found rest followed names none = ok names
  resolve_found rest followed names (some redirection) = do
    next ← follow followed redirection
    rest next.0 next.1

  unfoldable pub resolve_loop : ℕ → ℕ → Names → Result ResolveError Names
  resolve_loop zero followed names = err out_of_rounds
  resolve_loop (suc rounds) followed names = do
    found ← find_link [] names
    resolve_found (resolve_loop rounds) followed names found

  -- The 41st link is refused, so 41 rounds are enough.
  unfoldable pub resolve_target : Bytes → Result ResolveError Names
  resolve_target target = do
    names ← ok_or (normalize_inner_path target) target_escapes
    resolve_loop 41 0 names
