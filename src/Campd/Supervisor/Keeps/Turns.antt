-- ===== src/Campd/Supervisor/Keeps/Turns.antt =====
-- `drive` and the waits keep what is settled, and leave the readiness up to date.
use sandcamp.Base.{ℕ, ◌≡◌, refl, Option, none, some, Result, ok, err, ◌>>=◌}
use sandcamp.Campd.Supervisor.{ProbeEvent, Supervisor, Os, RunError, update_ready, ready_now}
use sandcamp.Campd.Supervisor.Reap.{
  apply_probe_event, reap_available, drain_probe_events, process_cleanups,
}
use sandcamp.Campd.Supervisor.Drive.{
  signal_of, settle, take_event, finish_turn, turn_on, poll, drive,
}
use sandcamp.Campd.Supervisor.Keeps.{Keeps, Keeps-refl, Keeps-trans, update_ready-Keeps}
use sandcamp.Campd.Supervisor.Keeps.Reaps.{
  Rest, reap_available-Yields, drain_probe_events-Yields, process_cleanups-Keeps,
}
use sandcamp.Campd.Supervisor.Keeps.Exits.{Yields, Yields-trans, apply_probe_event-Keeps}

-- A state whose readiness is what `update_ready` would store, later than `s`.
pub record Settled (s t : Supervisor) : Type 0 where
  pub keeps : Keeps s t
  pub fresh : t.ready ≡ ready_now t

pub Settled-trans : {s t u : Supervisor} → Keeps s t → Settled t u → Settled s u
Settled-trans a b = record { keeps = Keeps-trans a b.keeps; fresh = b.fresh }

update_ready-Settled : {s t : Supervisor} → Keeps s t → Settled s (update_ready t)
unfolding update_ready ready_now
update_ready-Settled {s} {t} a = record {
  keeps = Keeps-trans a (update_ready-Keeps t);
  fresh = refl;
}

-- A result with a value beside a state that is settled.
abbrev pub Settles : {A W : Type 0} → Supervisor → Result RunError (A × Supervisor × W) → Type 0
Settles s (ok (a, t, w)) = Settled s t
Settles s (err e) = Unit

pub Settles-trans :
    {A W : Type 0} {s t : Supervisor} (r : Result RunError (A × Supervisor × W))
    → Keeps s t
    → Settles t r
    → Settles s r
Settles-trans (ok (n, u, w)) a b = Settled-trans a b
Settles-trans (err e) a b = tt

Yields-Settles :
    {A W : Type 0} (s : Supervisor) (m : Result RunError (Supervisor × W))
    (f : Supervisor × W → Result RunError (A × Supervisor × W))
    → Yields s m
    → ((x : Supervisor × W) → Settles x.0 (f x))
    → Settles s (m >>= f)
Yields-Settles s (ok (t, w)) f a b = Settles-trans (f (t, w)) a (b (t, w))
Yields-Settles s (err e) f a b = tt

pub Settles-bind :
    {A B W : Type 0} (s : Supervisor) (m : Result RunError (A × Supervisor × W))
    (f : A × Supervisor × W → Result RunError (B × Supervisor × W))
    → Settles s m
    → ((a : A) (t : Supervisor) (w : W) → Settled s t → Settles s (f (a, t, w)))
    → Settles s (m >>= f)
Settles-bind s (ok (a, t, w)) f h k = k a t w h
Settles-bind s (err e) f h k = tt

-- The state of a pair, updated.
abbrev Updates : {W : Type 0} → Supervisor → Result RunError (Supervisor × W) → Type 0
Updates s (ok (t, w)) = Settled s t
Updates s (err e) = Unit

module _ (os : Os) (rounds : ℕ) where
  open os use {World, waitpid, try_recv, signal_flag}

  cleaned : (s : Supervisor) (w : World) → Settled s (update_ready (process_cleanups os s w).0)
  cleaned s w = update_ready-Settled (process_cleanups-Keeps os s w)

  settle-Updates : (s : Supervisor) (w : World) → Updates s (settle os rounds s w)
  unfolding settle
  settle-Updates s w = go (reap_available os rounds s w) (reap_available-Yields os rounds s w)
    where
      again :
          (t : Supervisor) (m : Result RunError (Supervisor × World))
          → Keeps s t
          → Yields t m
          → Updates s
              (m >>= λ x. (let (u, v) = process_cleanups os x.0 x.1 in ok (update_ready u, v)))
      again t (ok (u, v)) a b = Settled-trans (Keeps-trans a b) (cleaned u v)
      again t (err e) a b = tt

      go :
          (m : Result RunError (Supervisor × World))
          → Yields s m
          → Updates s (
              m >>= λ x. drain_probe_events os rounds x.0 x.1 >>= λ y.
              (let (u, v) = process_cleanups os y.0 y.1 in ok (update_ready u, v)))
      go (ok (t, v)) a =
          again t (drain_probe_events os rounds t v) a (drain_probe_events-Yields os rounds t v)
      go (err e) a = tt

  take_event-Yields : (e : Option ProbeEvent) → Rest os (take_event os rounds e)
  unfolding take_event
  take_event-Yields none s w = Keeps-refl s
  take_event-Yields (some e) s w =
      Yields-trans (drain_probe_events os rounds (apply_probe_event s e) w)
        (apply_probe_event-Keeps s e)
        (drain_probe_events-Yields os rounds (apply_probe_event s e) w)

  finish_turn-Settles :
      (e : Option ProbeEvent) (s : Supervisor) (w : World) → Settles s (finish_turn os rounds e s w)
  unfolding finish_turn
  finish_turn-Settles e s w =
      Yields-Settles s (take_event os rounds e s w) _ (take_event-Yields e s w) (λ x.
        Yields-Settles x.0 (reap_available os rounds x.0 x.1) _
          (reap_available-Yields os rounds x.0 x.1) (λ y. cleaned y.0 y.1))

  -- Behind a settled state.
  turn_on-Settles :
      (flag : Option ℕ) (wait : ℕ) (s t : Supervisor) (w : World)
      → Settled s t
      → Settles s (turn_on os rounds flag wait t w)
  unfolding turn_on
  turn_on-Settles (some n) wait s t w h = h
  turn_on-Settles none wait s t w h =
      let (e, w₁) = poll os rounds wait w in
      Settles-trans (finish_turn os rounds e t w₁) h.keeps (finish_turn-Settles e t w₁)

  pub drive-Settles : (wait : ℕ) (s : Supervisor) (w : World) → Settles s (drive os rounds wait s w)
  unfolding drive
  drive-Settles wait s w = go (settle os rounds s w) (settle-Updates s w)
    where
      go :
          (m : Result RunError (Supervisor × World))
          → Updates s m
          → Settles s (
              m >>= λ x.
              (let (flag, v) = signal_flag x.1 in turn_on os rounds (signal_of flag) wait x.0 v))
      go (ok (t, v)) h = turn_on-Settles (signal_of (signal_flag v).0) wait s t (signal_flag v).1 h
      go (err e) h = tt
