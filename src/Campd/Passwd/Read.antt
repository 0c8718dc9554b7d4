-- ===== src/Campd/Passwd/Read.antt =====
-- cmd/campd/src/runtime.rs: `read_main_passwd`, over the system of the sandbox.
use sandcamp.Base.{
  ◌+◌, ◌≤◌, ◌≡◌, ap, sym, subst, ◌∙◌, arith, >>=-eq-ok, guard-bind_iff, true, leb, leb→≤, take,
  take-whole, length, Bytes, ascii, Result, ok, err, ◌>>=◌, ◌>>◌, map_err, guard,
}
use sandcamp.Rust.Utf8.{is_utf8}
use sandcamp.Sandrun.Sandbox.{Kernel, IoError}
use sandcamp.Sandrun.Sandbox.Identity.{max_passwd_bytes}
use sandcamp.Campd.Passwd.{RuntimeError, passwd_unreadable}

abbrev pub unreadable_for : Bytes → IoError → RuntimeError
unreadable_for name e = passwd_unreadable name

module _ (kernel : Kernel) where
  unfoldable pub read_main_passwd : Bytes → kernel.World → Result RuntimeError Bytes
  read_main_passwd path world = do
    metadata ← map_err (unreadable_for (ascii "passwd_stat_failed")) (kernel.metadata path world)
    guard metadata.is_file (passwd_unreadable (ascii "/etc/passwd is not a regular file"))
    guard (leb metadata.size max_passwd_bytes) (passwd_unreadable (ascii "passwd_too_large"))
    text ← map_err (unreadable_for (ascii "passwd_read_failed")) (kernel.read_file path world)
    let contents = take (max_passwd_bytes + 1) text
    guard (leb (length contents) max_passwd_bytes) (passwd_unreadable (ascii "passwd_too_large"))
    guard (is_utf8 contents) (passwd_unreadable (ascii "/etc/passwd is not UTF-8"))
    ok contents

-- What campd reads of /etc/passwd is the whole file, of at most 2^20 bytes and in UTF-8.
pub read_main_passwd-whole :
    (kernel : Kernel) (path : Bytes) (world : kernel.World) (contents : Bytes)
    → read_main_passwd kernel path world ≡ ok contents
    → (kernel.read_file path world ≡ ok contents)
      × (length contents ≤ max_passwd_bytes)
      × (is_utf8 contents ≡ true)
unfolding read_main_passwd
read_main_passwd-whole kernel path world contents e =
    let (metadata, e₀, e₁) =
      >>=-eq-ok (map_err (unreadable_for (ascii "passwd_stat_failed")) (kernel.metadata path world))
        _ e in
    let (file, e₂) = (guard-bind_iff metadata.is_file _ _ contents).0 e₁ in
    let (small, e₃) = (guard-bind_iff (leb metadata.size max_passwd_bytes) _ _ contents).0 e₂ in
    let (text, read, e₄) =
      >>=-eq-ok
        (map_err (unreadable_for (ascii "passwd_read_failed")) (kernel.read_file path world)) _
        e₃ in
    let (short, e₅) =
      (guard-bind_iff (leb (length (take (max_passwd_bytes + 1) text)) max_passwd_bytes) _ _
          contents).0
        e₄ in
    let (utf8, e₆) =
      (guard-bind_iff (is_utf8 (take (max_passwd_bytes + 1) text)) _ _ contents).0 e₅ in
    let same : take (max_passwd_bytes + 1) text ≡ contents = cc in
    let bound : length (take (max_passwd_bytes + 1) text) ≤ max_passwd_bytes =
      leb→≤ _ max_passwd_bytes short in
    let whole = take-whole (max_passwd_bytes + 1) max_passwd_bytes text (omega arith) bound in
    (
      unwrap (kernel.read_file path world) (read ∙ ap ok (sym whole ∙ same)),
      subst (λ c. length c ≤ max_passwd_bytes) same bound,
      subst (λ c. is_utf8 c ≡ true) same utf8,
    )
  where
    unwrap :
        (r : Result IoError Bytes)
        → map_err (unreadable_for (ascii "passwd_read_failed")) r ≡ ok contents
        → r ≡ ok contents
    unwrap (ok a) h = cc
    unwrap (err x) h = cc
