-- ===== src/ControlServer/Receive.antt =====
-- `recvRequest` of src/ControlServer.h, over what the calls of `recv` give.
pub mod Chunks
pub mod Line
mod Tests
use open_prlx.Prelude.{
  ℕ, zero, suc, ◌+◌, ◌-◌, if◌then◌else◌, ltb, Bool, Option, none, some, List, [], ◌∷◌, ◌++◌, ℤ, pos,
  pos_part, take, drop, length, ascii, ◌>>=◌,
}
use open_prlx.Wire.{Bytes}
use open_prlx.ControlServer.{Request}
use open_prlx.ControlServer.Text.{find, or_end, substr, header_value, skip_space, signed}

-- A round of a loop of `recvRequest`: the deadline has passed; `recv` gives 0 or an error; or it gives
-- bytes.
pub data Recv : Type 0 where
  late : Recv
  closed : Recv
  chunk : Bytes → Recv

-- The first loop: the buffer, the end of the headers in it, and the rounds that are left. The rounds
-- end with a timeout of `recv`.
unfoldable pub read_headers : List Recv → Bytes → Option (Bytes × ℕ × List Recv)
read_headers [] buf = none
read_headers (late ∷ rest) buf = none
read_headers (closed ∷ rest) buf = none
read_headers (chunk b ∷ rest) buf =
    let more = read_headers rest (buf ++ b) in
    if ltb 16384 (length (buf ++ b)) then none else elim (find (buf ++ b) (ascii "\r\n\r\n") 0) [
      | none ↦ more
      | some p ↦ some (buf ++ b, p, rest)
    ]

-- The second loop, for a body of `len` bytes.
unfoldable pub read_body : List Recv → Bytes → ℕ → Option Bytes
read_body [] body len = some body
read_body (late ∷ rest) body len = if ltb (length body) len then none else some body
read_body (closed ∷ rest) body len = some body
read_body (chunk b ∷ rest) body len =
    let more = read_body rest (body ++ b) len in
    if ltb (length body) len
    then if ltb 16384 (length (body ++ b)) then none else more
    else some body

-- The method, the path and the query of a request line.
unfoldable pub split_line : Bytes → Option (Bytes × Bytes × Bytes)
split_line line = do
  sp1 ← find line (ascii " ") 0
  sp2 ← find line (ascii " ") (sp1 + 1)
  let target = substr line (sp1 + 1) (sp2 - sp1 - 1)
  some (elim (find target (ascii "?") 0) [
    | none ↦ (take sp1 line, target, [])
    | some q ↦ (take sp1 line, take q target, drop (q + 1) target)
  ])

abbrev pub or_zero : Option ℤ → ℤ
or_zero none = pos 0
or_zero (some z) = z

-- `atoi` is `strtol`, and 0 where there is no number.
unfoldable pub content_length : Bytes → ℤ
content_length headers =
    or_zero (signed (skip_space (header_value headers (ascii "Content-Length"))))

-- A negative length wants no bytes.
unfoldable pub finish_request : Bytes → Bytes → List Recv → Option Request
finish_request headers body rest = do
  (method, path, query) ← split_line (take (or_end (find headers (ascii "\r\n") 0) headers) headers)
  let len = pos_part (content_length headers)
  whole ← if ltb 16384 len then none else read_body rest body len
  some (record { method = method; path = path; query = query; headers = headers; body = whole })

unfoldable pub recv_request : List Recv → Option Request
recv_request rounds = do
  (buf, p, rest) ← read_headers rounds []
  finish_request (take p buf) (drop (p + 4) buf) rest
