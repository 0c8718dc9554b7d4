-- ===== src/Sandrun/Sandbox/Encoding/Options.antt =====
-- The mount options of an overlay, read back.
use sandcamp.Base.{
  ℕ, ◌≡◌, refl, Bool, true, false, Option, none, some, [], ◌∷◌, ◌++◌, arith, ◌==◌, if◌then◌else◌,
  Bytes, ascii, append_assoc,
}
use sandcamp.Sandrun.Sandbox.Encoding.{escape_path, overlay_options}

-- What ends a value: a comma ends an option, and a colon a layer of the option.
pub data Stop : Type 0 where
  at_end at_comma at_colon : Stop

abbrev pub before : ℕ → Bytes × Stop × Bytes → Bytes × Stop × Bytes
before c (value, stop, rest) = (c ∷ value, stop, rest)

-- A value up to its end, where a backslash takes the next byte as it is.
unfoldable pub read_value : Bool → Bytes → Bytes × Stop × Bytes
read_value quoted [] = ([], at_end, [])
read_value true (c ∷ rest) = before c (read_value false rest)
read_value false (c ∷ rest) =
    let more = read_value (c == b'\\') rest in
    if c == b'\\'
    then more
    else if c == b','
    then ([], at_comma, rest)
    else if c == b':'
    then ([], at_colon, rest)
    else before c more

read_value-escape_path :
    (path : Bytes) (stop : ℕ) (rest : Bytes)
    → stop ≡ b','
    → read_value false (escape_path path ++ stop ∷ rest) ≡ (path, at_comma, rest)
unfolding read_value escape_path
read_value-escape_path [] stop rest h = ground (arith, h)
read_value-escape_path (c ∷ path) stop rest h =
    ground (arith, h, read_value-escape_path path stop rest h)

read_last-escape_path : (path : Bytes) → read_value false (escape_path path) ≡ (path, at_end, [])
unfolding read_value escape_path
read_last-escape_path [] = refl
read_last-escape_path (c ∷ path) = ground (arith, read_last-escape_path path)

-- What is left behind a given beginning.
unfoldable pub skip : Bytes → Bytes → Option Bytes
skip [] s = some s
skip (_ ∷ _) [] = none
skip (c ∷ cs) (d ∷ ds) = if c == d then skip cs ds else none

skip-append : (p s : Bytes) → skip p (p ++ s) ≡ some s
unfolding skip
skip-append [] s = refl
skip-append (c ∷ cs) s = ground (arith, skip-append cs s)

-- An option of a name with one value, and what stands behind its comma.
abbrev pub whole : Bytes × Stop × Bytes → Option (Bytes × Bytes)
whole (value, at_comma, rest) = some (value, rest)
whole (value, at_end, rest) = some (value, rest)
whole (value, at_colon, rest) = none

abbrev pub value_of : Option Bytes → Option (Bytes × Bytes)
value_of none = none
value_of (some s) = whole (read_value false s)

unfoldable pub read_named : Bytes → Option Bytes → Option (Bytes × Bytes)
read_named name none = none
read_named name (some s) = value_of (skip name s)

-- The three options in the order in which they stand, with nothing behind them.
abbrev pub rest_of : Option (Bytes × Bytes) → Option Bytes
rest_of none = none
rest_of (some (value, rest)) = some rest

abbrev pub three :
    Option (Bytes × Bytes)
    → Option (Bytes × Bytes)
    → Option (Bytes × Bytes)
    → Option (Bytes × Bytes × Bytes)
three (some (l, _)) (some (u, _)) (some (w, [])) = some (l, u, w)
three _ _ _ = none

unfoldable pub read_options : Bytes → Option (Bytes × Bytes × Bytes)
read_options s =
    let lower = read_named (ascii "lowerdir=") (some s) in
    let upper = read_named (ascii "upperdir=") (rest_of lower) in
    let work = read_named (ascii "workdir=") (rest_of upper) in three lower upper work

read_named-comma :
    (name path rest : Bytes)
    → read_named name (some (name ++ (escape_path path ++ b',' ∷ rest))) ≡ some (path, rest)
unfolding read_named
read_named-comma name path rest =
    rw
      (
        skip-append name (escape_path path ++ b',' ∷ rest),
        read_value-escape_path path b',' rest refl,
      )
      refl

read_named-end :
    (name path : Bytes) → read_named name (some (name ++ escape_path path)) ≡ some (path, [])
unfolding read_named
read_named-end name path = rw (skip-append name (escape_path path), read_last-escape_path path) refl

-- Whatever bytes stand in the three paths, commas, colons and backslashes too, the options of an
-- overlay are read back as these paths, each a single layer.
pub read_options-overlay_options :
    (lower upper work : Bytes)
    → read_options (overlay_options lower upper work) ≡ some (lower, upper, work)
unfolding read_options overlay_options
read_options-overlay_options lower upper work =
    let l = escape_path lower in
    let u = escape_path upper in
    let w = ascii "workdir=" ++ escape_path work in
    let tail : Bytes = ascii "upperdir=" ++ (u ++ b',' ∷ w) in
    let e₁ : ascii "lowerdir="
          ++ l
          ++ ascii ",upperdir="
          ++ u
          ++ ascii ",workdir="
          ++ escape_path work
        ≡ ascii "lowerdir=" ++ (l ++ b',' ∷ tail) =
      simp (append_assoc) in
    rw
      (
        e₁,
        read_named-comma (ascii "lowerdir=") lower tail,
        read_named-comma (ascii "upperdir=") upper w,
        read_named-end (ascii "workdir=") work,
      )
      refl
