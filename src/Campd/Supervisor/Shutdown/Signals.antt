-- ===== src/Campd/Supervisor/Shutdown/Signals.antt =====
-- The signals that the end of campd sends, on a system that notes them.
use sandcamp.Base.{
  ℕ, zero, suc, ◌+◌, ◌≡◌, ◌⊎◌, refl, sym, ◌∙◌, subst, ap, inl, inr, Bool, true, false, List, [],
  ◌∷◌, In, here, there, In-cases, ltb, is_empty, if◌then◌else◌, if-cases,
}
use sandcamp.Campd.Supervisor.{shutdown_grace, kill_grace, poll_interval, sigkill, Supervisor, Os}
use sandcamp.Campd.Supervisor.Shutdown.{
  groups_to_end, is_reaped, reap_any, signal_all, retain_groups, await_groups, terminate_groups,
  shutdown,
}
use sandcamp.Campd.Supervisor.Shutdown.Groups.{Owns, groups_to_end_iff}

-- The groups that were signalled, each with its signal, the last one first.
abbrev pub Sent : Type 0
Sent = List (ℕ × ℕ)

-- A system with a note of the signals that are sent to groups; the rest is as it was.
abbrev pub noting : Os → Os
noting os = record {
  World = os.World × Sent;
  waitpid = λ x. ((os.waitpid x.0).0, ((os.waitpid x.0).1, x.1));
  group_exists = λ g x. ((os.group_exists g x.0).0, ((os.group_exists g x.0).1, x.1));
  signal_group = λ g n x. (os.signal_group g n x.0, (g, n) ∷ x.1);
  reap_pid = λ n x. (os.reap_pid n x.0, x.1);
  now = λ x. ((os.now x.0).0, ((os.now x.0).1, x.1));
  sleep = λ n x. (os.sleep n x.0, x.1);
  try_recv = λ x. ((os.try_recv x.0).0, ((os.try_recv x.0).1, x.1));
  recv_timeout = λ n x. ((os.recv_timeout n x.0).0, ((os.recv_timeout n x.0).1, x.1));
  signal_flag = λ x. ((os.signal_flag x.0).0, ((os.signal_flag x.0).1, x.1));
  start = λ c u x. ((os.start c u x.0).0, ((os.start c u x.0).1, x.1));
  start_probe = λ n p x. ((os.start_probe n p x.0).0, ((os.start_probe n p x.0).1, x.1));
}

module _ (os : Os) (rounds : ℕ) where
  abbrev World : Type 0
  World = os.World × Sent

  abbrev Noted : Sent → World → Type 0
  Noted sent w = w.1 ≡ sent

  reap_any-notes : (fuel : ℕ) (w : World) → (reap_any (noting os) rounds fuel w).1 ≡ w.1
  unfolding reap_any
  reap_any-notes zero w = refl
  reap_any-notes (suc fuel) w =
      go (is_reaped (noting os) rounds (os.waitpid w.0).0)
        (reap_any-notes fuel ((os.waitpid w.0).1, w.1))
    where
      go :
          (b : Bool)
          → (reap_any (noting os) rounds fuel ((os.waitpid w.0).1, w.1)).1 ≡ w.1
          → Noted w.1 (elim b [
            | true ↦ reap_any (noting os) rounds fuel ((os.waitpid w.0).1, w.1)
            | false ↦ ((os.waitpid w.0).1, w.1)
          ])
      go true h = h
      go false h = refl

  signal_all-keeps :
      (n : ℕ) (gs : List ℕ) (w : World) (e : ℕ × ℕ)
      → In e w.1
      → In e (signal_all (noting os) rounds n gs w).1
  unfolding signal_all
  signal_all-keeps n [] w e i = i
  signal_all-keeps n (g ∷ gs) w e i =
      signal_all-keeps n gs (os.signal_group g n w.0, (g, n) ∷ w.1) e (there i)

  signal_all-tells :
      (n g : ℕ) (gs : List ℕ) (w : World)
      → In g gs
      → In (g, n) (signal_all (noting os) rounds n gs w).1
  unfolding signal_all
  signal_all-tells n g [] w i = elim i [ ]
  signal_all-tells n g (h ∷ gs) w i =
      let w₁ : World = (os.signal_group h n w.0, (h, n) ∷ w.1) in
      elim (In-cases g h gs i) [
        | inl same ↦
            signal_all-keeps n gs w₁ (g, n) (subst (λ x. In (x, n) ((h, n) ∷ w.1)) (sym same) here)
        | inr j ↦ signal_all-tells n g gs w₁ j
      ]

  -- What was sent before, or is sent here.
  abbrev Sends : ℕ → List ℕ → Sent → ℕ × ℕ → Type 0
  Sends n gs before e = In e before ⊎ (In e.0 gs × (e.1 ≡ n))

  signal_all-only :
      (n : ℕ) (gs : List ℕ) (w : World) (e : ℕ × ℕ)
      → In e (signal_all (noting os) rounds n gs w).1
      → Sends n gs w.1 e
  unfolding signal_all
  signal_all-only n [] w e i = inl i
  signal_all-only n (g ∷ gs) w e i =
      elim (signal_all-only n gs (os.signal_group g n w.0, (g, n) ∷ w.1) e i) [
        | inl j ↦ elim (In-cases e (g, n) w.1 j) [
          | inl same ↦ inr (
            subst (λ x. In x (g ∷ gs)) (sym (ap (λ (x : ℕ × ℕ). x.0) same)) here,
            ap (λ (x : ℕ × ℕ). x.1) same,
          )
          | inr k ↦ inl k
        ]
        | inr (k, same) ↦ inr (there k, same)
      ]

  -- A wait sends nothing and leaves some of the groups.
  record Waits (gs : List ℕ) (before : Sent) (out : List ℕ × World) : Type 0 where
    notes : out.1.1 ≡ before
    rest : (g : ℕ) → In g out.0 → In g gs

  Waits-later :
      {gs hs : List ℕ} {before later : Sent} {out : List ℕ × World}
      → later ≡ before
      → ((g : ℕ) → In g hs → In g gs)
      → Waits hs later out
      → Waits gs before out
  Waits-later e f h = record { notes = h.notes ∙ e; rest = λ g i. f g (h.rest g i) }

  retain_groups-Waits :
      (gs : List ℕ) (w : World) → Waits gs w.1 (retain_groups (noting os) rounds gs w)
  unfolding retain_groups
  retain_groups-Waits [] w = record { notes = refl; rest = λ g i. i }
  retain_groups-Waits (h ∷ gs) w =
      let w₁ : World = ((os.group_exists h w.0).1, w.1) in
      let later = retain_groups-Waits gs w₁ in
      record {
        notes = later.notes;
        rest = λ g.
            if-cases (λ xs. In g xs → In g (h ∷ gs)) (os.group_exists h w.0).0
              (h ∷ (retain_groups (noting os) rounds gs w₁).0)
              (retain_groups (noting os) rounds gs w₁).0
              (λ e i. elim (In-cases g h (retain_groups (noting os) rounds gs w₁).0 i) [
                | inl same ↦ subst (λ x. In x (h ∷ gs)) (sym same) here
                | inr j ↦ there (later.rest g j)
              ])
              (λ e i. there (later.rest g i));
      }

  await_groups-Waits :
      (fuel deadline : ℕ) (gs : List ℕ) (w : World)
      → Waits gs w.1 (await_groups (noting os) rounds fuel deadline gs w)
  unfolding await_groups
  await_groups-Waits zero deadline gs w = record { notes = refl; rest = λ g i. i }
  await_groups-Waits (suc fuel) deadline [] w = record { notes = refl; rest = λ g i. i }
  await_groups-Waits (suc fuel) deadline (h ∷ gs) w =
      go (ltb (os.now w.0).0 deadline) (await_groups-Waits fuel deadline kept.0 slept)
    where
      w₁ : World
      w₁ = ((os.now w.0).1, w.1)

      kept : List ℕ × World
      kept = retain_groups (noting os) rounds (h ∷ gs) (reap_any (noting os) rounds rounds w₁)

      slept : World
      slept = if is_empty kept.0 then kept.1 else (os.sleep poll_interval kept.1.0, kept.1.1)

      here_Waits : Waits (h ∷ gs) w.1 kept
      here_Waits =
          Waits-later (reap_any-notes rounds w₁) (λ g i. i)
            (retain_groups-Waits (h ∷ gs) (reap_any (noting os) rounds rounds w₁))

      slept-notes : slept.1 ≡ kept.1.1
      slept-notes =
          if-cases (λ (x : World). x.1 ≡ kept.1.1) (is_empty kept.0) kept.1
            (os.sleep poll_interval kept.1.0, kept.1.1) (λ e. refl) (λ e. refl)

      go :
          (b : Bool)
          → Waits kept.0 slept.1 (await_groups (noting os) rounds fuel deadline kept.0 slept)
          → Waits (h ∷ gs) w.1 (elim b [
            | false ↦ (h ∷ gs, w₁)
            | true ↦ await_groups (noting os) rounds fuel deadline kept.0 slept
          ])
      go false k = record { notes = refl; rest = λ g i. i }
      go true k = Waits-later (slept-notes ∙ here_Waits.notes) here_Waits.rest k

  -- The groups of the supervisor, and no others, are sent the signal and then, as far as they are
  -- sent anything else, SIGKILL.
  pub record Terminates (s : Supervisor) (signal : ℕ) (sent : Sent) : Type 0 where
    pub told : (g : ℕ) → Owns g s → In (g, signal) sent
    pub only : (g n : ℕ) → In (g, n) sent → Owns g s × ((n ≡ signal) ⊎ (n ≡ sigkill))

  -- The end of campd sends its signal to the group of each process that is alive or has left
  -- descendants, and to that of each pending cleanup; what else it sends is SIGKILL, and to these
  -- groups alone.
  pub shutdown-Terminates :
      (signal : ℕ) (s : Supervisor) (w : os.World)
      → Terminates s signal (shutdown (noting os) rounds signal s (w, [])).2.1
  unfolding shutdown terminate_groups
  shutdown-Terminates signal s w = record {
    told = λ g owns. subst (In (g, signal)) (sym second.notes) (
        signal_all-keeps sigkill remaining.0 remaining.1 (g, signal)
          (subst (In (g, signal)) (sym first.notes)
            (signal_all-tells signal g groups (w, []) ((groups_to_end_iff g s).1 owns))));
    only = λ g n i.
        elim (signal_all-only sigkill remaining.0 remaining.1 (g, n)
          (subst (In (g, n)) second.notes i)) [
            | inl j ↦
                elim (signal_all-only signal groups (w, []) (g, n)
                  (subst (In (g, n)) first.notes j)) [
                    | inl k ↦ elim k [ ]
                    | inr (k, same) ↦ ((groups_to_end_iff g s).0 k, inl same)
                  ]
            | inr (k, same) ↦ ((groups_to_end_iff g s).0 (first.rest g k), inr same)
          ];
  }
    where
      groups : List ℕ
      groups = groups_to_end s

      told : World
      told = signal_all (noting os) rounds signal groups (w, [])

      remaining : List ℕ × World
      remaining =
          await_groups (noting os) rounds rounds ((os.now told.0).0 + shutdown_grace) groups
            ((os.now told.0).1, told.1)

      first : Waits groups told.1 remaining
      first =
          await_groups-Waits rounds ((os.now told.0).0 + shutdown_grace) groups
            ((os.now told.0).1, told.1)

      killed : World
      killed = signal_all (noting os) rounds sigkill remaining.0 remaining.1

      second : Waits remaining.0 killed.1 (
          await_groups
            (noting os)
            rounds
            rounds
            ((os.now killed.0).0 + kill_grace)
            remaining.0
            ((os.now killed.0).1, killed.1))
      second =
          await_groups-Waits rounds ((os.now killed.0).0 + kill_grace) remaining.0
            ((os.now killed.0).1, killed.1)
