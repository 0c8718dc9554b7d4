-- ===== src/Campd/Prober/Rounds.antt =====
-- A probe comes to an answer, and a sleep to an end.
use sandcamp.Base.{
  ℕ, zero, suc, ◌+◌, ◌-◌, ◌≤◌, ◌<◌, ◌≡◌, ◌≢◌, ◌⊎◌, subst, sym, inl, inr, refl, min, Bool, true,
  false, Option, none, some, [], ◌∷◌, ◌++◌, arith, ◌==◌, ==_iff, take, if-cases, Bytes, length,
  length-append,
}
use sandcamp.Campd.Spec.{Probe}
use sandcamp.Campd.Supervisor.{poll_interval}
use sandcamp.Campd.Prober.{
  Net, before_newline, response_size, probe_request, Outcome, remaining_until, if_left, if_done,
  read_further, after_read, at_most, read_response, http_probe, sleep_left, unless_cancelled,
  sleep_until, sleep_with_cancel,
}

length-take : (n : ℕ) (xs : Bytes) → length (take n xs) ≤ n
length-take zero xs = omega arith
length-take (suc n) [] = omega arith
length-take (suc n) (x ∷ xs) = omega (arith, length-take n xs)

module _ (net : Net) where
  abbrev pub Answers : Option Bool × net.World → Type 0
  Answers out = out.0 ≢ none

  if_left-Answers :
      (go : ℕ → net.World → Outcome net) (x : ℕ × net.World)
      → ((n : ℕ) (w : net.World) → Answers (go n w))
      → Answers (if_left net go x)
  unfolding if_left
  if_left-Answers go (zero, w) h = λ e. cc
  if_left-Answers go (suc n, w) h = h (suc n) w

  if_done-Answers :
      (go : net.World → Outcome net) (x : Bool × net.World)
      → ((w : net.World) → Answers (go w))
      → Answers (if_done net go x)
  unfolding if_done
  if_done-Answers go (false, w) h = λ e. cc
  if_done-Answers go (true, w) h = h w

  -- The bytes of a read fit the room.
  abbrev FitsRoom : ℕ → Option Bytes × net.World → Type 0
  FitsRoom room (none, w) = Unit
  FitsRoom room (some chunk, w) = length chunk ≤ room

  at_most-FitsRoom : (room : ℕ) (x : Option Bytes × net.World) → FitsRoom room (at_most net room x)
  at_most-FitsRoom room (none, w) = tt
  at_most-FitsRoom room (some chunk, w) = length-take room chunk

  read_further-Answers :
      (again : Bytes → net.World → Outcome net) (got : Bytes) (w : net.World) (found : Option Bytes)
      → (length got ≢ 128 → Answers (again got w))
      → Answers (read_further net again got w found)
  unfolding read_further
  read_further-Answers again got w (some line) h = λ e. cc
  read_further-Answers again got w none h =
      if-cases Answers (length got == response_size) (some false, w) (again got w) (λ e f. cc)
        (λ e. h (λ n. cc ((==_iff (length got) 128).1 n)))

  after_read-Answers :
      (again : Bytes → net.World → Outcome net) (got : Bytes) (x : Option Bytes × net.World)
      → FitsRoom (128 - length got) x
      → length got < 128
      → ((more : Bytes) (w : net.World)
          → length got < length more
          → length more < 128
          → Answers (again more w))
      → Answers (after_read net again got x)
  unfolding after_read
  after_read-Answers again got (none, w) f l h = λ e. cc
  after_read-Answers again got (some [], w) f l h = λ e. cc
  after_read-Answers again got (some (c ∷ chunk), w) f l h =
      let more = got ++ c ∷ chunk in
      let n = length-append got (c ∷ chunk) in
      read_further-Answers again more w (before_newline more)
        (λ k. h more w (omega (arith, n)) (omega (arith, n, f, l, k)))

  read_response-Answers :
      (rounds deadline : ℕ) (got : Bytes) (w : net.World)
      → 128 ≤ rounds + length got
      → length got < 128
      → Answers (read_response net rounds deadline got w)
  unfolding read_response
  read_response-Answers zero deadline got w h l = absurd (omega (arith, h, l))
  read_response-Answers (suc rounds) deadline got w h l =
      if_left-Answers _ (remaining_until net deadline w) (λ left w₁.
        if_done-Answers _ (net.set_read_timeout left w₁) (λ w₂.
          after_read-Answers (read_response net rounds deadline) got _
            (at_most-FitsRoom (128 - length got) (net.read (128 - length got) w₂)) l
            (λ more w₃ longer short.
              read_response-Answers rounds deadline more w₃ (omega (arith, h, longer)) short)))

-- A probe always comes to an answer: whatever the socket gives, the loop that reads the first line
-- ends within 128 reads.
pub http_probe-Answers :
    (net : Net) (probe : Probe) (deadline : ℕ) (w : net.World)
    → Answers net (http_probe net probe deadline w)
unfolding http_probe
http_probe-Answers net probe deadline w =
    if_left-Answers net _ (remaining_until net deadline w) (λ left w₁.
      if_done-Answers net _ (net.connect probe.port left w₁) (λ w₂.
        if_left-Answers net _ (remaining_until net deadline w₂) (λ left' w₃.
          if_done-Answers net _ (net.set_write_timeout left' w₃) (λ w₄.
            if_done-Answers net _ (net.write_all (probe_request probe.path) w₄)
              (λ w₅. read_response-Answers net 128 deadline [] w₅ (omega arith) (omega arith))))))

-- A clock that the calls do not turn back, and that a sleep puts forward by its time.
pub record Clock (net : Net) : Type 0 where
  pub time : net.World → ℕ
  pub now_time : (w : net.World) → ((net.now w).0 ≡ time w) × (time w ≤ time (net.now w).1)
  pub cancelled_time : (w : net.World) → time w ≤ time (net.cancelled w).1
  pub sleep_time : (n : ℕ) (w : net.World) → time w + n ≤ time (net.sleep n w)

-- The end of a sleep: its time is over, or the flag has been seen.
abbrev pub IsOver : (net : Net) → Clock net → ℕ → Option net.World → Type 0
IsOver net clock deadline none = ⊥
IsOver net clock deadline (some w) =
    (deadline ≤ clock.time w) ⊎ ((before : net.World) × (net.cancelled before ≡ (true, w)))

module _ (net : Net) (clock : Clock net) where
  unless_cancelled-IsOver :
      (deadline : ℕ) (go : net.World → Option net.World) (w : net.World) (x : Bool × net.World)
      → net.cancelled w ≡ x
      → ((w' : net.World) → w' ≡ x.1 → IsOver net clock deadline (go w'))
      → IsOver net clock deadline (unless_cancelled net go x)
  unfolding unless_cancelled
  unless_cancelled-IsOver deadline go w (true, w') e h = inr (w, e)
  unless_cancelled-IsOver deadline go w (false, w') e h = h w' refl

  sleep_left-IsOver :
      (deadline : ℕ) (again : net.World → Option net.World) (x : ℕ × net.World)
      → (x.0 ≡ 0 → deadline ≤ clock.time x.1)
      → ((n : ℕ)
          → x.0 ≡ suc n
          → IsOver net clock deadline (again (net.sleep (min (suc n) poll_interval) x.1)))
      → IsOver net clock deadline (sleep_left net again x)
  unfolding sleep_left
  sleep_left-IsOver deadline again (zero, w) z h = inl (z refl)
  sleep_left-IsOver deadline again (suc n, w) z h = h n refl

  sleep_until-IsOver :
      (rounds deadline : ℕ) (w : net.World)
      → deadline + 1 ≤ rounds + clock.time w
      → 1 ≤ rounds
      → IsOver net clock deadline (sleep_until net rounds deadline w)
  unfolding sleep_until remaining_until
  sleep_until-IsOver zero deadline w h l = absurd (omega (arith, l))
  sleep_until-IsOver (suc rounds) deadline w h l =
      unless_cancelled-IsOver deadline _ w (net.cancelled w) refl (λ w' same.
        let (now, later) = clock.now_time w' in
        let start : clock.time w ≤ clock.time w' =
          subst (λ v. clock.time w ≤ clock.time v) (sym same) (clock.cancelled_time w) in
        sleep_left-IsOver deadline _ (deadline - (net.now w').0, (net.now w').1)
          (λ z. omega (arith, z, now, later))
          (λ n e.
            let slept = clock.sleep_time (min (suc n) poll_interval) (net.now w').1 in
            let some_time : 1 ≤ min (suc n) poll_interval = omega arith in
            sleep_until-IsOver rounds deadline
              (net.sleep (min (suc n) poll_interval) (net.now w').1)
              (omega (arith, h, start, later, slept, some_time)) (omega (arith, h, start, now, e))))

-- On such a clock a sleep comes to an end, and then its time is over or the probe was cancelled.
pub sleep_with_cancel-IsOver :
    (net : Net) (clock : Clock net) (duration : ℕ) (w : net.World)
    → IsOver net clock (clock.time w + duration) (sleep_with_cancel net duration w)
unfolding sleep_with_cancel
sleep_with_cancel-IsOver net clock duration w =
    let (now, later) = clock.now_time w in
    rw (sym now) (
      sleep_until-IsOver net clock (duration + 1) ((net.now w).0 + duration) (net.now w).1
        (omega (arith, now, later)) (omega arith))
