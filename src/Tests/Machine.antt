-- ===== src/Tests/Machine.antt =====
-- A system in which jobs exit at once with 0 and probes succeed.
use sandcamp.Base.{
  Bytes, List, Option, [], arith, false, length, none, ok, refl, some, true, ℕ, ◌++◌, ◌+◌, ◌∷◌, ◌≡◌,
  ◌≤◌,
}
use sandcamp.Campd.Supervisor.{Os, ProbeEvent, WaitStatus, Waited, exited, no_child, reaped}
use sandcamp.Campd.Supervisor.Drive.Returns.{Finite, events, reports}

-- The exits and events that are due, and the signals that the next looks at the flag will find.
pub record Machine : Type 0 where
  pub exits : List (ℕ × WaitStatus)
  pub due : List ProbeEvent
  pub flags : List ℕ
  pub next_pid : ℕ
  pub clock : ℕ

abbrev pub pop_exit : List (ℕ × WaitStatus) → Machine → Waited × Machine
pop_exit [] m = (no_child, m)
pop_exit ((pid, status) ∷ rest) m = (reaped pid status, record m { exits = rest })

abbrev pub pop_event : List ProbeEvent → Machine → Option ProbeEvent × Machine
pop_event [] m = (none, m)
pop_event (e ∷ rest) m = (some e, record m { due = rest })

abbrev pub pop_flag : List ℕ → Machine → ℕ × Machine
pop_flag [] m = (0, m)
pop_flag (n ∷ rest) m = (n, record m { flags = rest })

-- A program with arguments is a job, and exits at once.
abbrev pub exits_of : ℕ → List Bytes → List (ℕ × WaitStatus)
exits_of pid [] = []
exits_of pid (_ ∷ _) = (pid, exited 0) ∷ []

abbrev pub machine : Os
machine = record {
  World = Machine;
  waitpid = λ m. pop_exit m.exits m;
  group_exists = λ g m. (false, m);
  signal_group = λ g n m. m;
  reap_pid = λ pid m. m;
  now = λ m. (m.clock, m);
  sleep = λ n m. record m { clock = m.clock + n };
  try_recv = λ m. pop_event m.due m;
  recv_timeout = λ n m. pop_event m.due (record m { clock = m.clock + n });
  signal_flag = λ m. pop_flag m.flags m;
  start = λ c user m. (
    ok m.next_pid,
    record m { next_pid = m.next_pid + 1; exits = m.exits ++ exits_of m.next_pid c.args },
  );
  start_probe = λ i p m.
      (none, record m { due = m.due ++ record { process_index = i; success = true } ∷ [] });
}

abbrev pub fresh : Machine
fresh = record { exits = []; due = []; flags = []; next_pid = 100; clock = 0 }

abbrev pub left_on : Machine → ℕ
left_on m = length m.exits + length m.due

pub pop_exit-left :
    (xs : List (ℕ × WaitStatus)) (m : Machine)
    → m.exits ≡ xs
    → left_on (pop_exit xs m).1 + reports (pop_exit xs m).0 ≤ left_on m
pop_exit-left [] m e = omega arith
pop_exit-left ((pid, status) ∷ xs) m e = rw e (omega arith)

pub pop_event-left :
    (es : List ProbeEvent) (m : Machine)
    → m.due ≡ es
    → left_on (pop_event es m).1 + events (pop_event es m).0 ≤ left_on m
pop_event-left [] m e = omega arith
pop_event-left (x ∷ es) m e = rw e (omega arith)

pub pop_event-late :
    (n : ℕ) (es : List ProbeEvent) (m : Machine)
    → m.due ≡ es
    → left_on (pop_event es (record m { clock = m.clock + n })).1 ≤ left_on m
pop_event-late n [] m e = omega arith
pop_event-late n (x ∷ es) m e = rw e (omega arith)

pub pop_flag-left : (fs : List ℕ) (m : Machine) → left_on (pop_flag fs m).1 ≤ left_on m
pop_flag-left [] m = omega arith
pop_flag-left (n ∷ fs) m = omega arith

abbrev pub machine-Finite : Finite machine
machine-Finite = record {
  left = left_on;
  waitpid = λ m. pop_exit-left m.exits m refl;
  try_recv = λ m. pop_event-left m.due m refl;
  recv_timeout = λ n m. pop_event-late n m.due m refl;
  group_exists = λ g m. omega arith;
  signal_group = λ g n m. omega arith;
  now = λ m. omega arith;
  signal_flag = λ m. pop_flag-left m.flags m;
}
