-- ===== src/Campd/Ready.antt =====
-- cmd/campd/src/ready.rs: what the ready endpoint answers.
pub mod Answers
use sandcamp.Base.{
  ℕ, Bool, true, false, not, ◌||◌, Option, none, some, List, [], ◌∷◌, ◌++◌, if◌then◌else◌, Bytes,
  ascii, bytes_eq, length, Result, ok, err,
}
use sandcamp.Rust.Words.{split_whitespace, first_line, first_or_empty, second_or_empty}
use sandcamp.Rust.Int.{print_u32}

abbrev pub crlf : Bytes
crlf = 13 ∷ 10 ∷ []

abbrev pub newline : Bytes
newline = 10 ∷ []

-- A status with its reason, and a body.
abbrev pub not_found : Bytes × Bytes
not_found = (ascii "404 Not Found", ascii "not found" ++ newline)

abbrev pub is_ready : Bytes × Bytes
is_ready = (ascii "200 OK", ascii "ready" ++ newline)

abbrev pub is_unready : Bytes × Bytes
is_unready = (ascii "503 Service Unavailable", ascii "unready" ++ newline)

-- The answer by the request, of which one read gives up to 1024 bytes.
unfoldable pub answer : Bytes → Bool → Bytes × Bytes
answer request ready =
    let parts = split_whitespace (first_line request) in
    let method = first_or_empty parts in
    let path = second_or_empty parts in
    if not (bytes_eq method (ascii "GET")) || not (bytes_eq path (ascii "/ready"))
    then not_found
    else if ready
    then is_ready
    else is_unready

unfoldable pub response : Bytes × Bytes → Bytes
response (status, body) =
    ascii "HTTP/1.1 "
    ++ status
    ++ crlf
    ++ ascii "Content-Type: text/plain"
    ++ crlf
    ++ ascii "Content-Length: "
    ++ print_u32 (length body)
    ++ crlf
    ++ ascii "Connection: close"
    ++ crlf
    ++ crlf
    ++ body

-- What is written for what `read` gives; a failed read is not answered.
unfoldable pub respond : Result Bytes Bytes → Bool → Option Bytes
respond (err message) ready = none
respond (ok request) ready = some (response (answer request ready))
