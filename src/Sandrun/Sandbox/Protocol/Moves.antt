-- ===== src/Sandrun/Sandbox/Protocol/Moves.antt =====
-- Acts that keep to the order of the effects, and how they are put together.
use sandcamp.Base.{
  ◌≡◌, refl, Bool, true, false, Option, List, [], ◌∷◌, if◌then◌else◌, Bytes, Result, ok, err,
  map_err, All, In, here, there,
}
use sandcamp.Base.Steps.{lift, pure, fail, ◌>>=◌, ◌>>◌, each, collect_each, continue}
use sandcamp.Sandrun.Config.{Config}
use sandcamp.Sandrun.Sandbox.{
  IoError, RuntimeError, operation, Effect, Kernel, perform, Trace, Act, attempt, look, inspect,
}
use sandcamp.Sandrun.Sandbox.Protocol.{Phase, Follows, Reaches, and_then}

module _ (kernel : Kernel) (config : Config) where
  abbrev pub Arrives :
      {A : Type 0}
      → (A → Phase)
      → (A → Type 0)
      → Result RuntimeError A × Trace kernel.World
      → Type 0
  Arrives q G (ok a, s) = Reaches kernel config s.effects (q a) × G a
  Arrives q G (err e, s) = (p : Phase) × Reaches kernel config s.effects p

  -- From the phase `p`, an act that succeeds leads to `q` of its result, of which `G` holds; one
  -- that fails has kept to the order so far.
  pub record Moves {A : Type 0} (p : Phase) (q : A → Phase) (G : A → Type 0) (m : Act kernel A)
      : Type 0 where
    pub moves : (s : Trace kernel.World) → Reaches kernel config s.effects p → Arrives q G (m s)

  abbrev pub Keeps : {A : Type 0} → Phase → Act kernel A → Type 0
  Keeps p m = Moves p (λ _. p) (λ _. Unit) m

module _ {kernel : Kernel} {config : Config} where
  pub bind-Moves :
      {A B : Type 0} {p : Phase} {q : A → Phase} {G : A → Type 0} {r : B → Phase} {H : B → Type 0}
      {m : Act kernel A} {k : A → Act kernel B}
      → Moves kernel config p q G m
      → ((a : A) → G a → Moves kernel config (q a) r H (k a))
      → Moves kernel config p r H (m >>= k)
  unfolding continue
  bind-Moves {q = q} {G = G} {r = r} {H = H} {m = m} {k = k} first later = record {
    moves = λ s h. go (m s) (first.moves s h);
  }
    where
      go :
          (x : Result RuntimeError _ × Trace kernel.World)
          → Arrives kernel config q G x
          → Arrives kernel config r H (continue x k)
      go (ok a, t) g = (later a g.1).moves t g.0
      go (err e, t) g = g

  pub pure-Moves :
      {A : Type 0} {q : A → Phase} {G : A → Type 0} (a : A)
      → G a
      → Moves kernel config (q a) q G (pure a)
  pure-Moves a g = record { moves = λ s h. (h, g) }

  pub fail-Moves :
      {A : Type 0} {p : Phase} {q : A → Phase} {G : A → Type 0} (e : RuntimeError)
      → Moves kernel config p q G (fail e)
  fail-Moves {p = p} e = record { moves = λ s h. (p, h) }

  pub lift-Moves :
      {A : Type 0} {p : Phase} {G : A → Type 0} (r : Result RuntimeError A)
      → ((a : A) → r ≡ ok a → G a)
      → Moves kernel config p (λ _. p) G (lift r)
  lift-Moves (ok a) g = record { moves = λ s h. (h, g a refl) }
  lift-Moves {p = p} (err e) g = record { moves = λ s h. (p, h) }

  pub attempt-Moves :
      {p q : Phase} {e : Effect}
      → Follows kernel config p e q
      → Moves kernel config p (λ _. q) (λ _. Unit {0}) (attempt kernel e)
  unfolding attempt
  attempt-Moves {e = e} f = record { moves = λ s h. (and_then e h f, tt) }

  pub perform-Moves :
      {p q : Phase} {e : Effect} (name : Bytes) (path : Option Bytes)
      → Follows kernel config p e q
      → Moves kernel config p (λ _. q) (λ _. Unit {0}) (perform kernel name path e)
  unfolding perform
  perform-Moves name path f =
      bind-Moves (attempt-Moves f) (λ a _. lift-Moves (map_err (operation name path) a) (λ b _. tt))

  pub >>-Moves :
      {B : Type 0} {p q : Phase} {r : B → Phase} {H : B → Type 0} {m : Act kernel (Unit {0})}
      {k : Act kernel B}
      → Moves kernel config p (λ _. q) (λ _. Unit {0}) m
      → Moves kernel config q r H k
      → Moves kernel config p r H (m >> k)
  >>-Moves first later = bind-Moves first (λ u _. later)

  pub lift-Keeps :
      {A : Type 0} {p : Phase} (r : Result RuntimeError A) → Keeps kernel config p (lift r)
  lift-Keeps r = lift-Moves r (λ a e. tt)

  -- What holds of the look at every world holds of its result.
  pub look-Moves :
      {A : Type 0} {p : Phase} {G : A → Type 0} (f : kernel.World → A)
      → ((w : kernel.World) → G (f w))
      → Moves kernel config p (λ _. p) G (look kernel f)
  look-Moves f g = record { moves = λ s h. (h, g s.world) }

  pub look-Keeps :
      {A : Type 0} {p : Phase} (f : kernel.World → A) → Keeps kernel config p (look kernel f)
  look-Keeps f = look-Moves f (λ w. tt)

  -- What holds of all that a look may find.
  pub inspect-Moves :
      {A : Type 0} {p : Phase} {G : A → Type 0} (name : Bytes) (path : Option Bytes)
      (f : kernel.World → Result IoError A)
      → ((w : kernel.World) (a : A) → f w ≡ ok a → G a)
      → Moves kernel config p (λ _. p) G (inspect kernel name path f)
  unfolding inspect
  inspect-Moves {A = A} {p = p} {G = G} name path f g = record {
    moves = λ s h. go s (f s.world) (g s.world) h;
  }
    where
      go :
          (s : Trace kernel.World) (r : Result IoError A)
          → ((a : A) → r ≡ ok a → G a)
          → Reaches kernel config s.effects p
          → Arrives kernel config (λ _. p) G (map_err (operation name path) r, s)
      go s (ok a) k h = (h, k a refl)
      go s (err e) k h = (p, h)

  pub inspect-Keeps :
      {A : Type 0} {p : Phase} (name : Bytes) (path : Option Bytes)
      (f : kernel.World → Result IoError A)
      → Keeps kernel config p (inspect kernel name path f)
  inspect-Keeps name path f = inspect-Moves name path f (λ w a e. tt)

  pub weaken-Moves :
      {A : Type 0} {p : Phase} {q : A → Phase} {G H : A → Type 0} {m : Act kernel A}
      → ((a : A) → G a → H a)
      → Moves kernel config p q G m
      → Moves kernel config p q H m
  weaken-Moves {A = A} {q = q} {G = G} {H = H} {m = m} f h = record {
    moves = λ s r. go (m s) (h.moves s r);
  }
    where
      go :
          (x : Result RuntimeError A × Trace kernel.World)
          → Arrives kernel config q G x
          → Arrives kernel config q H x
      go (ok a, t) g = (g.0, f a g.1)
      go (err e, t) g = g

  pub each-Keeps :
      {A : Type 0} {p : Phase} (xs : List A) {f : A → Act kernel (Unit {0})}
      → ((x : A) → In x xs → Keeps kernel config p (f x))
      → Keeps kernel config p (each xs f)
  unfolding each
  each-Keeps [] h = pure-Moves tt tt
  each-Keeps (x ∷ xs) h = bind-Moves (h x here) (λ u _. each-Keeps xs (λ y i. h y (there i)))

  pub collect-Moves :
      {A B : Type 0} {p : Phase} {G : B → Type 0} (xs : List A) {f : A → Act kernel B}
      → ((x : A) → Moves kernel config p (λ _. p) G (f x))
      → Moves kernel config p (λ _. p) (All G) (collect_each xs f)
  unfolding collect_each
  collect-Moves [] h = pure-Moves [] tt
  collect-Moves (x ∷ xs) h =
      bind-Moves (h x)
        (λ y g. bind-Moves (collect-Moves xs h) (λ ys gs. pure-Moves (y ∷ ys) (g, gs)))

  pub if-Moves :
      {A : Type 0} {p : Phase} {q : A → Phase} {G : A → Type 0} (b : Bool) {m k : Act kernel A}
      → Moves kernel config p q G m
      → Moves kernel config p q G k
      → Moves kernel config p q G (if b then m else k)
  if-Moves true h l = h
  if-Moves false h l = l
