-- ===== src/Campd/Ready/Answers.antt =====
-- The answers of the ready endpoint, read by a client.
use sandcamp.Base.{
  ℕ, ◌≡◌, refl, ◌⊎◌, inl, inr, Bool, true, false, not, ◌&&◌, ◌||◌, Option, none, some, List, [],
  ◌∷◌, ◌==◌, if◌then◌else◌, Bytes, ascii, bytes_eq, length,
}
use sandcamp.Rust.Bytes.{split_on, is_ascii_digit}
use sandcamp.Rust.Int.{parse_digits, parse_u32, digits_onto, print_u32}
use sandcamp.Rust.Words.{split_whitespace, first_or_empty, second_or_empty, first_line}
use sandcamp.Campd.Prober.{trim_cr}
use sandcamp.Campd.Ready.{not_found, is_ready, is_unready, answer, response}

-- What stands before the first empty line, and behind it.
unfoldable pub split_head : Bytes → Bytes × Bytes
split_head (a ∷ b ∷ c ∷ d ∷ rest) =
    let more = split_head (b ∷ c ∷ d ∷ rest) in
    if a == 13 && b == 10 && c == 13 && d == 10 then ([], rest) else (a ∷ more.0, more.1)
split_head s = (s, [])

-- The rest of a text behind a given beginning.
unfoldable pub behind : Bytes → Bytes → Option Bytes
behind [] s = some s
behind (_ ∷ _) [] = none
behind (c ∷ cs) (d ∷ ds) = if c == d then behind cs ds else none

abbrev pub or_else : Option ℕ → Option ℕ → Option ℕ
or_else none o = o
or_else (some n) o = some n

abbrev pub number_of : Option Bytes → Option ℕ
number_of none = none
number_of (some digits) = parse_u32 (trim_cr digits)

-- The number of the first header line that gives the length of the body.
unfoldable pub content_length : List Bytes → Option ℕ
content_length [] = none
content_length (line ∷ rest) =
    or_else (number_of (behind (ascii "Content-Length: ") line)) (content_length rest)

abbrev pub whole_body : Option Bytes → Option ℕ → Bytes → Option (Bytes × Bytes)
whole_body (some status) (some n) body =
    if length body == n then some (trim_cr status, body) else none
whole_body _ _ body = none

abbrev pub status_of : List Bytes → Option Bytes
status_of [] = none
status_of (line ∷ _) = behind (ascii "HTTP/1.1 ") line

-- A client: the status behind the version, and a body that is as long as its header says.
unfoldable pub read_http : Bytes → Option (Bytes × Bytes)
read_http text =
    let (head, body) = split_head text in
    let parts = split_on 10 head in whole_body (status_of parts) (content_length parts) body

run_read : Unit {0}
unfolding response print_u32 digits_onto split_head split_on behind content_length parse_u32
    parse_digits is_ascii_digit trim_cr read_http
run_read = tt

answer-cases :
    (request : Bytes) (ready : Bool)
    → (answer request ready ≡ not_found)
      ⊎ ((answer request ready ≡ is_ready) ⊎ (answer request ready ≡ is_unready))
unfolding answer
answer-cases request ready =
    go
      (not (bytes_eq (first_or_empty (split_whitespace (first_line request))) (ascii "GET"))
        || not
            (bytes_eq (second_or_empty (split_whitespace (first_line request))) (ascii "/ready")))
      ready
  where
    go :
        (refused ready : Bool)
        → ((if refused then not_found else if ready then is_ready else is_unready) ≡ not_found)
          ⊎ (((if refused then not_found else if ready then is_ready else is_unready) ≡ is_ready)
              ⊎ ((if refused then not_found else if ready then is_ready else is_unready)
                  ≡ is_unready))
    go true r = inl refl
    go false true = inr (inl refl)
    go false false = inr (inr refl)

read_not_found : read_http (response not_found) ≡ some not_found
unfolding run_read
read_not_found = refl

read_ready : read_http (response is_ready) ≡ some is_ready
unfolding run_read
read_ready = refl

read_unready : read_http (response is_unready) ≡ some is_unready
unfolding run_read
read_unready = refl

-- A client reads back from the response to any request the status and the body of the answer, the
-- length in the header being that of the body.
pub read_http-response :
    (request : Bytes) (ready : Bool)
    → read_http (response (answer request ready)) ≡ some (answer request ready)
read_http-response request ready = elim (answer-cases request ready) [
  | inl e ↦ rw e read_not_found
  | inr (inl e) ↦ rw e read_ready
  | inr (inr e) ↦ rw e read_unready
]
