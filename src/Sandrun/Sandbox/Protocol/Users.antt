-- ===== src/Sandrun/Sandbox/Protocol/Users.antt =====
-- The identity that `run` looks up, and the credentials that it gives up.
use sandcamp.Base.{
  map_err-ok, ◌≡◌, refl, subst, ◌+◌, ok, map_err, leb, length, take, take-whole, leb→≤, guard_iff,
  arith, ascii, ◌==◌, Bool, true, false, not, Option, none, some, List, [], Bytes,
}
use sandcamp.Base.Steps.{lift}
use sandcamp.Sandrun.Config.{Config, ProcessUser, named, numeric}
use sandcamp.Sandrun.Passwd.{UserIdentity, parse_passwd}
use sandcamp.Sandrun.Sandbox.Places.Found.{Leads, IsReal}
use sandcamp.Sandrun.Sandbox.{invalid_passwd, Effect, Kernel}
use sandcamp.Sandrun.Sandbox.Identity.{
  max_passwd_bytes, resolve_user, select_identity, perform_if, apply_identity,
}
use sandcamp.Sandrun.Sandbox.Launch.{identify}
use sandcamp.Sandrun.Sandbox.Protocol.{
  only_if, drops, all_drops, AskedOf, HasEntry, Phase, dropping, drop,
}
use sandcamp.Sandrun.Sandbox.Protocol.Moves.{
  Moves, bind-Moves, pure-Moves, perform-Moves, >>-Moves, lift-Keeps, lift-Moves, look-Keeps,
  inspect-Keeps, inspect-Moves,
}
use sandcamp.Sandrun.Sandbox.Protocol.Looks.{resolve_below-Leads}

module _ {kernel : Kernel} {config : Config} where
  -- A text that fits is the whole file.
  entry-Moves :
      {p : Phase} (rootfs user passwd : Bytes) (w : kernel.World) (text : Bytes)
      → Leads kernel rootfs (ascii "/etc/passwd") passwd
      → kernel.read_file passwd w ≡ ok text
      → leb (length (take (max_passwd_bytes + 1) text)) max_passwd_bytes ≡ true
      → Moves kernel config p
          (λ _. p)
          (HasEntry kernel rootfs user)
          (lift (map_err invalid_passwd (parse_passwd (take (max_passwd_bytes + 1) text) user)))
  entry-Moves rootfs user passwd w text found read fits = lift-Moves _ (λ i e. record {
    passwd = passwd;
    found = found;
    reading = w;
    text = text;
    read = read;
    entry =
        subst (λ t. parse_passwd t user ≡ ok i)
          (take-whole (max_passwd_bytes + 1) max_passwd_bytes text (omega arith)
            (leb→≤ (length (take (max_passwd_bytes + 1) text)) max_passwd_bytes fits))
          (map_err-ok invalid_passwd (parse_passwd (take (max_passwd_bytes + 1) text) user) i e);
  })

  resolve_user-Moves :
      {p : Phase} (rootfs user : Bytes)
      → Moves kernel config p
          (λ _. p)
          (HasEntry kernel rootfs user)
          (resolve_user kernel rootfs user)
  unfolding resolve_user
  resolve_user-Moves rootfs user = bind-Moves (resolve_below-Leads rootfs _) (λ passwd found.
      bind-Moves (inspect-Keeps _ _ _) (λ m _. >>-Moves (lift-Keeps _) (
        >>-Moves (lift-Keeps _) (
          bind-Moves
            (inspect-Moves {G = Read passwd} _ _ (kernel.read_file passwd) (λ w a e. (w, e)))
            (λ text read.
              bind-Moves
                (lift-Moves {G = Fits text} _ (λ u e.
                  (guard_iff (leb (length (take (max_passwd_bytes + 1) text)) max_passwd_bytes) _).0
                    e))
                (λ u fits.
                  >>-Moves (lift-Keeps _)
                    (entry-Moves rootfs user passwd read.0 text found read.1 fits)))))))
    where
      Read : Bytes → Bytes → Type 0
      Read passwd text = (w : kernel.World) × (kernel.read_file passwd w ≡ ok text)

      Fits : Bytes → Unit {0} → Type 0
      Fits text u = leb (length (take (max_passwd_bytes + 1) text)) max_passwd_bytes ≡ true

  pub select_identity-Moves :
      {p : Phase} (rootfs lower : Bytes) (user : Option ProcessUser)
      → IsReal kernel rootfs lower
      → Moves kernel config p
          (λ _. p)
          (AskedOf kernel rootfs user)
          (select_identity kernel lower user)
  unfolding select_identity
  select_identity-Moves rootfs lower none real = pure-Moves none refl
  select_identity-Moves rootfs lower (some (named user)) real =
      bind-Moves (resolve_user-Moves lower user)
        (λ i entry. pure-Moves (some i) (lower, real, i, entry, refl))
  select_identity-Moves rootfs lower (some (numeric uid gid)) real =
      >>-Moves (lift-Keeps _) (pure-Moves _ refl)

  drop_if-Moves :
      (needed : Bool) (es : List Effect) (name : Bytes) (e : Effect)
      → Moves kernel config
          (dropping (only_if needed e es))
          (λ _. dropping es)
          (λ _. Unit {0})
          (perform_if kernel needed name e)
  unfolding perform_if
  drop_if-Moves false es name e = pure-Moves tt tt
  drop_if-Moves true es name e = perform-Moves name none (drop e es)

  apply_identity-Moves :
      (i : UserIdentity)
      → Moves kernel config
          (dropping (drops i))
          (λ _. dropping [])
          (λ _. Unit {0})
          (apply_identity kernel i)
  unfolding apply_identity drops
  apply_identity-Moves i =
      let non_root = not (i.uid == 0) in
      >>-Moves (drop_if-Moves non_root _ _ _) (
        >>-Moves (perform-Moves _ _ (drop _ _)) (
          >>-Moves (perform-Moves _ _ (drop _ _)) (
            >>-Moves (perform-Moves _ _ (drop _ _)) (
              >>-Moves (drop_if-Moves non_root _ _ _) (
                >>-Moves (drop_if-Moves non_root _ _ _)
                  (bind-Moves (look-Keeps _) (λ ids _. lift-Keeps _)))))))

  pub identify-Moves :
      (i : Option UserIdentity)
      → Moves kernel config
          (dropping (all_drops i))
          (λ _. dropping [])
          (λ _. Unit {0})
          (identify kernel i)
  unfolding identify
  identify-Moves none = pure-Moves tt tt
  identify-Moves (some i) = apply_identity-Moves i
