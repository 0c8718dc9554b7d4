-- ===== src/Campd/Supervisor/Drive/Total.antt =====
-- `drive` as a whole returns.
use sandcamp.Base.{
  ℕ, ◌≤◌, ◌<◌, ◌≡◌, refl, Option, none, some, arith, ◌==◌, min, if-cases, Result, ok, err, ◌>>=◌,
  ◌⊎◌, inl, inr, Bytes,
}
use sandcamp.Campd.Supervisor.{
  poll_interval, ProbeEvent, Supervisor, Os, RunError, wait_error, panicked, out_of_rounds,
}
use sandcamp.Campd.Supervisor.Reap.{
  apply_probe_event, reap_available, drain_probe_events, process_cleanups,
}
use sandcamp.Campd.Supervisor.Drive.{
  signal_of, settle, take_event, finish_turn, poll, turn_on, drive,
}
use sandcamp.Campd.Supervisor.Drive.Returns.{
  Finite, Finishes, Finishes-trans, reap_available-Finishes, drain_probe_events-Finishes,
  process_cleanups-Below,
}

module _ (os : Os) (finite : Finite os) where
  open os use {World, signal_flag, try_recv, recv_timeout}
  open finite use {left}

  -- A turn that returns, or stops with the error of `waitpid`.
  abbrev Ends : World → Result RunError (Option ℕ × Supervisor × World) → Type 0
  Ends w (ok (n, t, v)) = left v ≤ left w
  Ends w (err (wait_error m)) = Unit
  Ends w (err panicked) = ⊥
  Ends w (err out_of_rounds) = ⊥

  Ends-trans :
      (w v : World) (r : Result RunError (Option ℕ × Supervisor × World))
      → left v ≤ left w
      → Ends v r
      → Ends w r
  Ends-trans w v (ok (n, t, x)) a b = omega (arith, a, b)
  Ends-trans w v (err (wait_error m)) a b = tt
  Ends-trans w v (err panicked) a b = b
  Ends-trans w v (err out_of_rounds) a b = b

  Finishes-bind :
      (w : World) (m : Result RunError (Supervisor × World))
      (f : Supervisor × World → Result RunError (Supervisor × World))
      → Finishes os finite w m
      → ((s : Supervisor) (v : World) → left v ≤ left w → Finishes os finite v (f (s, v)))
      → Finishes os finite w (m >>= f)
  Finishes-bind w (ok (s, v)) f a h = Finishes-trans os finite w v (f (s, v)) a (h s v a)
  Finishes-bind w (err (wait_error m)) f a h = tt
  Finishes-bind w (err panicked) f a h = a
  Finishes-bind w (err out_of_rounds) f a h = a

  Ends-bind :
      (w : World) (m : Result RunError (Supervisor × World))
      (f : Supervisor × World → Result RunError (Option ℕ × Supervisor × World))
      → Finishes os finite w m
      → ((s : Supervisor) (v : World) → left v ≤ left w → Ends v (f (s, v)))
      → Ends w (m >>= f)
  Ends-bind w (ok (s, v)) f a h = Ends-trans w v (f (s, v)) a (h s v a)
  Ends-bind w (err (wait_error m)) f a h = tt
  Ends-bind w (err panicked) f a h = a
  Ends-bind w (err out_of_rounds) f a h = a

  settle-Finishes :
      (rounds : ℕ) (s : Supervisor) (w : World)
      → left w < rounds
      → Finishes os finite w (settle os rounds s w)
  unfolding settle
  settle-Finishes rounds s w e =
      Finishes-bind w (reap_available os rounds s w) _
        (reap_available-Finishes os finite rounds s w e)
        (λ t v a.
          Finishes-bind v (drain_probe_events os rounds t v) _
            (drain_probe_events-Finishes os finite rounds t v (omega (arith, a, e)))
            (λ u x b. process_cleanups-Below os finite u x))

  take_event-Finishes :
      (rounds : ℕ) (event : Option ProbeEvent) (s : Supervisor) (w : World)
      → left w < rounds
      → Finishes os finite w (take_event os rounds event s w)
  unfolding take_event
  take_event-Finishes rounds none s w e = omega arith
  take_event-Finishes rounds (some event) s w e =
      drain_probe_events-Finishes os finite rounds (apply_probe_event s event) w e

  finish_turn-Ends :
      (rounds : ℕ) (event : Option ProbeEvent) (s : Supervisor) (w : World)
      → left w < rounds
      → Ends w (finish_turn os rounds event s w)
  unfolding finish_turn
  finish_turn-Ends rounds event s w e =
      Ends-bind w (take_event os rounds event s w) _ (take_event-Finishes rounds event s w e)
        (λ t v a.
          Ends-bind v (reap_available os rounds t v) _
            (reap_available-Finishes os finite rounds t v (omega (arith, a, e)))
            (λ u x b. omega (
              arith,
              process_cleanups-Below os finite u x,
              finite.signal_flag (process_cleanups os u x).1,
            )))

  poll-left : (rounds wait : ℕ) (w : World) → left (poll os rounds wait w).1 ≤ left w
  unfolding poll
  poll-left rounds wait w =
      if-cases (λ (r : Option ProbeEvent × World). left r.1 ≤ left w) (wait == 0) (try_recv w)
        (recv_timeout (min wait poll_interval) w) (λ e. omega (arith, finite.try_recv w))
        (λ e. finite.recv_timeout (min wait poll_interval) w)

  turn_on-Ends :
      (rounds : ℕ) (flag : Option ℕ) (wait : ℕ) (s : Supervisor) (w : World)
      → left w < rounds
      → Ends w (turn_on os rounds flag wait s w)
  unfolding turn_on
  turn_on-Ends rounds (some n) wait s w e = omega arith
  turn_on-Ends rounds none wait s w e =
      let (event, v) = poll os rounds wait w in
      let below = poll-left rounds wait w in
      Ends-trans w v (finish_turn os rounds event s v) below
        (finish_turn-Ends rounds event s v (omega (arith, below, e)))

  drive-Ends :
      (rounds wait : ℕ) (s : Supervisor) (w : World)
      → left w < rounds
      → Ends w (drive os rounds wait s w)
  unfolding drive
  drive-Ends rounds wait s w e =
      Ends-bind w (settle os rounds s w) _ (settle-Finishes rounds s w e) (λ t v a.
        let below = finite.signal_flag v in
        let x = (signal_flag v).1 in
        Ends-trans v x (turn_on os rounds (signal_of (signal_flag v).0) wait t x) below
          (turn_on-Ends rounds (signal_of (signal_flag v).0) wait t x (omega (arith, below, a, e))))

  outcome :
      (w : World) (r : Result RunError (Option ℕ × Supervisor × World))
      → Ends w r
      → ((turn : Option ℕ × Supervisor × World) × (r ≡ ok turn))
        ⊎ ((message : Bytes) × (r ≡ err (wait_error message)))
  outcome w (ok turn) h = inl (turn, refl)
  outcome w (err (wait_error m)) h = inr (m, refl)
  outcome w (err panicked) h = absurd h
  outcome w (err out_of_rounds) h = absurd h

  -- Where the system still makes fewer reports (exits, interruptions, probe events) than the rounds
  -- of the model, a turn returns, or stops with the error that `waitpid` has reported; it never
  -- runs out of rounds.
  pub drive-returns :
      (rounds wait : ℕ) (s : Supervisor) (w : World)
      → left w < rounds
      → ((turn : Option ℕ × Supervisor × World) × (drive os rounds wait s w ≡ ok turn))
        ⊎ ((message : Bytes) × (drive os rounds wait s w ≡ err (wait_error message)))
  drive-returns rounds wait s w e =
      outcome w (drive os rounds wait s w) (drive-Ends rounds wait s w e)
