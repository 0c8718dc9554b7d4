-- ===== src/Campd/Prober.antt =====
-- cmd/campd/src/runtime.rs: one probe of a service over HTTP, and the thread that repeats it.
pub mod Rounds
pub mod Judges
pub mod Pieces
use sandcamp.Base.{
  ℕ, zero, suc, ◌+◌, ◌-◌, ◌*◌, min, Bool, true, false, not, ◌&&◌, ◌||◌, Option, none, some, List,
  [], ◌∷◌, ◌++◌, leb, ltb, ◌==◌, take, if◌then◌else◌, Bytes, ascii, bytes_eq, length, all,
}
use sandcamp.Rust.Bytes.{is_ascii_digit, split_on}
use sandcamp.Rust.Words.{split_whitespace, first_or_empty, second_or_empty}
use sandcamp.Campd.Spec.{Probe}
use sandcamp.Campd.Supervisor.{poll_interval}

-- The socket, the clock and the channel of a probe's thread; each call may change the world. `read`
-- gives at most so many bytes, or `none` for an error.
pub record Net : Type 1 where
  pub World : Type 0
  pub now : World → ℕ × World
  pub sleep : ℕ → World → World
  pub connect : (port timeout : ℕ) → World → Bool × World
  pub set_write_timeout : ℕ → World → Bool × World
  pub write_all : Bytes → World → Bool × World
  pub set_read_timeout : ℕ → World → Bool × World
  pub read : ℕ → World → Option Bytes × World
  pub send : (success : Bool) → World → Bool × World
  pub cancelled : World → Bool × World

-- `trim_end_matches('\r')`
abbrev drop_cr : ℕ → Bytes → Bytes
drop_cr c [] = if c == 13 then [] else c ∷ []
drop_cr c (d ∷ rest) = c ∷ d ∷ rest

unfoldable pub trim_cr : Bytes → Bytes
trim_cr [] = []
trim_cr (c ∷ rest) = drop_cr c (trim_cr rest)

-- The value of three digits: `parse::<u16>` cannot fail on them.
unfoldable pub status_value : Bytes → ℕ
status_value (a ∷ b ∷ c ∷ []) = (a - b'0') * 100 + (b - b'0') * 10 + (c - b'0')
status_value _ = 0

-- Whether a first line is that of a success or a redirection.
unfoldable pub judge : Bytes → Bool
judge line =
    let parts = split_whitespace (trim_cr line) in
    let version = first_or_empty parts in
    let status = second_or_empty parts in
    (bytes_eq version (ascii "HTTP/1.0") || bytes_eq version (ascii "HTTP/1.1"))
    && length status == 3
    && all is_ascii_digit status
    && (leb 200 (status_value status) && ltb (status_value status) 400)

-- `response[..size].iter().position(|byte| *byte == b'\n')`, as what stands before it.
abbrev pub add_before : ℕ → Option Bytes → Option Bytes
add_before c none = none
add_before c (some line) = some (c ∷ line)

unfoldable pub before_newline : Bytes → Option Bytes
before_newline [] = none
before_newline (c ∷ rest) =
    let more = before_newline rest in if c == 10 then some [] else add_before c more

abbrev pub response_size : ℕ
response_size = 128

unfoldable pub probe_request : Bytes → Bytes
probe_request path =
    ascii "GET "
    ++ path
    ++ ascii " HTTP/1.1"
    ++ 13 ∷ 10 ∷ ascii "Host: 127.0.0.1"
    ++ 13 ∷ 10 ∷ ascii "Connection: close"
    ++ 13 ∷ 10 ∷ 13 ∷ 10 ∷ []

module _ (net : Net) where
  -- An outcome of a loop: `none` when it is out of rounds.
  abbrev pub Outcome : Type 0
  Outcome = Option Bool × net.World

  -- `remaining_until`: the time that is left, if there is any.
  unfoldable pub remaining_until : ℕ → net.World → ℕ × net.World
  remaining_until deadline w = let (now, w') = net.now w in (deadline - now, w')

  unfoldable pub if_left : (ℕ → net.World → Outcome) → ℕ × net.World → Outcome
  if_left go (zero, w) = (some false, w)
  if_left go (suc left, w) = go (suc left) w

  unfoldable pub if_done : (net.World → Outcome) → Bool × net.World → Outcome
  if_done go (false, w) = (some false, w)
  if_done go (true, w) = go w

  -- What has been read: a line, a full buffer, or room for more.
  unfoldable pub read_further :
      (Bytes → net.World → Outcome) → Bytes → net.World → Option Bytes → Outcome
  read_further again got w (some line) = (some (judge line), w)
  read_further again got w none =
      if length got == response_size then (some false, w) else again got w

  unfoldable pub after_read :
      (Bytes → net.World → Outcome) → Bytes → Option Bytes × net.World → Outcome
  after_read again got (none, w) = (some false, w)
  after_read again got (some [], w) = (some false, w)
  after_read again got (some (c ∷ chunk), w) =
      let more = got ++ c ∷ chunk in read_further again more w (before_newline more)

  abbrev pub at_most : ℕ → Option Bytes × net.World → Option Bytes × net.World
  at_most room (none, w) = (none, w)
  at_most room (some chunk, w) = (some (take room chunk), w)

  unfoldable pub read_response : ℕ → ℕ → Bytes → net.World → Outcome
  read_response zero deadline got w = (none, w)
  read_response (suc rounds) deadline got w =
      if_left
        (λ left w₁.
          if_done
            (λ w₂.
              let room = response_size - length got in
              after_read (read_response rounds deadline) got (at_most room (net.read room w₂)))
            (net.set_read_timeout left w₁))
        (remaining_until deadline w)

  -- Each read takes room in the buffer, so 128 rounds are enough.
  unfoldable pub http_probe : Probe → ℕ → net.World → Outcome
  http_probe probe deadline w =
      if_left
        (λ left w₁.
          if_done
            (λ w₂.
              if_left
                (λ left' w₃.
                  if_done
                    (λ w₄.
                      if_done (read_response response_size deadline [])
                        (net.write_all (probe_request probe.path) w₄))
                    (net.set_write_timeout left' w₃))
                (remaining_until deadline w₂))
            (net.connect probe.port left w₁))
        (remaining_until deadline w)

  -- `sleep_with_cancel`: `none` when out of rounds.
  unfoldable pub sleep_left : (net.World → Option net.World) → ℕ × net.World → Option net.World
  sleep_left again (zero, w) = some w
  sleep_left again (suc left, w) = again (net.sleep (min (suc left) poll_interval) w)

  unfoldable pub unless_cancelled :
      (net.World → Option net.World) → Bool × net.World → Option net.World
  unless_cancelled go (true, w) = some w
  unless_cancelled go (false, w) = go w

  unfoldable pub sleep_until : ℕ → ℕ → net.World → Option net.World
  sleep_until zero deadline w = none
  sleep_until (suc rounds) deadline w =
      unless_cancelled
        (λ w₁. sleep_left (sleep_until rounds deadline) (remaining_until deadline w₁))
        (net.cancelled w)

  -- Each sleep takes a millisecond or more, so that the rounds are enough.
  unfoldable pub sleep_with_cancel : ℕ → net.World → Option net.World
  sleep_with_cancel duration w =
      let (now, w') = net.now w in sleep_until (duration + 1) (now + duration) w'

  -- The thread of a probe; `none` when out of rounds.
  abbrev pub and_sleep :
      (net.World → Option net.World) → Probe → Bool × net.World → Option net.World
  and_sleep again probe (false, w) = some w
  and_sleep again probe (true, w) = elim (sleep_with_cancel probe.period_ms w) [
    | none ↦ none
    | some w' ↦ again w'
  ]

  abbrev pub report : (net.World → Option net.World) → Probe → Outcome → Option net.World
  report again probe (none, w) = none
  report again probe (some success, w) = and_sleep again probe (net.send success w)

  unfoldable pub probe_worker : ℕ → Probe → net.World → Option net.World
  probe_worker zero probe w = none
  probe_worker (suc rounds) probe w =
      unless_cancelled
        (λ w₁.
          let (now, w₂) = net.now w₁ in
          report (probe_worker rounds probe) probe (http_probe probe (now + probe.timeout_ms) w₂))
        (net.cancelled w)
