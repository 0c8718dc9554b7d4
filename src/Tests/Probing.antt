-- ===== src/Tests/Probing.antt =====
-- Probes of a service, answers of the ready endpoint, and a network on which time passes.
use sandcamp.Base.{
  ℕ, ◌+◌, ◌≡◌, refl, true, false, none, some, List, [], ◌∷◌, ◌++◌, arith, Bytes, ascii, bytes_eq,
  all,
}
use sandcamp.Rust.Bytes.{split_on, is_ascii_digit, lines}
use sandcamp.Rust.Int.{digits_onto, print_u32}
use sandcamp.Rust.Words.{white, scan_words, split_whitespace, first_line}
use sandcamp.Campd.Spec.{Probe}
use sandcamp.Campd.Prober.{
  Net, trim_cr, status_value, judge, before_newline, probe_request, http_probe, sleep_with_cancel,
}
use sandcamp.Campd.Prober.Rounds.{
  Answers, Clock, IsOver, http_probe-Answers, sleep_with_cancel-IsOver,
}
use sandcamp.Campd.Prober.Judges.{http_probe-judge}
use sandcamp.Campd.Prober.Pieces.{connection}
use sandcamp.Campd.Ready.{not_found, answer, response, respond}
use sandcamp.Campd.Ready.Answers.{read_http, read_http-response}

abbrev probe : Probe
probe = record {
  port = 8080;
  path = ascii "/health";
  period_ms = 1000;
  timeout_ms = 200;
  startup_timeout_ms = 10000;
  success_threshold = 1;
  failure_threshold = 3;
}

read_http-response_example :
    read_http (response (answer (ascii "GET /health HTTP/1.1") true))
    ≡ some (answer (ascii "GET /health HTTP/1.1") true)
read_http-response_example = read_http-response (ascii "GET /health HTTP/1.1") true

run_respond : Unit {0}
unfolding split_on lines white scan_words split_whitespace first_line answer response respond
    print_u32 digits_onto probe_request bytes_eq all is_ascii_digit trim_cr status_value judge
    before_newline
run_respond = tt

elsewhere : answer (ascii "GET /health HTTP/1.1") true ≡ not_found
unfolding run_respond
elsewhere = refl

-- A redirection counts as a success.
abbrev moved : List Bytes
moved = ascii "HTTP/1.0 30" ∷ (ascii "2 Found" ++ 10 ∷ []) ∷ []

moved_line : before_newline (ascii "HTTP/1.0 302 Found") ≡ none
unfolding run_respond
moved_line = refl

moved_judged : judge (ascii "HTTP/1.0 302 Found") ≡ true
unfolding run_respond
moved_judged = refl

http_probe-judge_example :
    (http_probe connection probe 200 moved).0 ≡ some (judge (ascii "HTTP/1.0 302 Found"))
http_probe-judge_example =
    http_probe-judge probe 200 moved (ascii "HTTP/1.0 302 Found") [] (omega arith) moved_line
      (omega arith) (refl, (refl, tt)) refl

http_probe-Answers_example : Answers connection (http_probe connection probe 200 [])
http_probe-Answers_example = http_probe-Answers connection probe 200 []

-- Nothing but time.
abbrev waiting : Net
waiting = record {
  World = ℕ;
  now = λ w. (w, w);
  sleep = λ n w. w + n;
  connect = λ port timeout w. (false, w);
  set_write_timeout = λ timeout w. (true, w);
  write_all = λ request w. (true, w);
  set_read_timeout = λ timeout w. (true, w);
  read = λ room w. (none, w);
  send = λ success w. (true, w);
  cancelled = λ w. (false, w);
}

waiting_clock : Clock waiting
waiting_clock = record {
  time = λ w. w;
  now_time = λ w. (refl, omega arith);
  cancelled_time = λ w. omega arith;
  sleep_time = λ n w. omega arith;
}

sleep_with_cancel-IsOver_example :
    IsOver waiting waiting_clock (waiting_clock.time 5 + 120) (sleep_with_cancel waiting 120 5)
sleep_with_cancel-IsOver_example = sleep_with_cancel-IsOver waiting waiting_clock 120 5
