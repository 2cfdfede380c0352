-- ===== src/ControlServer/Receive/Tests.antt =====
-- A request that comes in three chunks.
use open_prlx.Prelude.{◌≡◌, refl, arith, some, List, [], ◌∷◌, map, ascii}
use open_prlx.Wire.{Bytes}
use open_prlx.ControlServer.Text.{
  find, to_lower, header_value, trim, skip_blanks, is_blank, skip_space, signed, number, digits,
  is_digit, or_end,
}
use open_prlx.ControlServer.Receive.{chunk, recv_request, split_line, content_length}
use open_prlx.ControlServer.Receive.Chunks.{join, request_of, recv_request-chunks}
use open_prlx.ControlServer.Search.{Lacks}
use open_prlx.ControlServer.Receive.Line.{print_line, target_of, split_line-print}

abbrev pieces : List Bytes
pieces =
    ascii "POST /tune?token=a HTTP/1.1\r\nConte"
    ∷ ascii "nt-Length: 2\r\n\r"
    ∷ ascii "\n{"
    ∷ ascii "}"
    ∷ []

recv_request-chunks_example : recv_request (map chunk pieces) ≡ request_of (join pieces) 46
unfolding find content_length header_value to_lower trim skip_blanks is_blank skip_space signed
    number digits is_digit or_end
recv_request-chunks_example = recv_request-chunks pieces 46 refl (omega arith) refl

no_blank : Lacks 32 (ascii "GET")
no_blank = (
  (λ e. absurd (omega (arith, e))),
  ((λ e. absurd (omega (arith, e))), ((λ e. absurd (omega (arith, e))), tt)),
)

split_line-print_example :
    split_line
      (print_line (ascii "GET") (target_of (ascii "/") (some (ascii "a"))) (ascii "HTTP/1.1"))
    ≡ some (ascii "GET", ascii "/", ascii "a")
split_line-print_example =
    split_line-print (ascii "GET") (ascii "/") (some (ascii "a")) (ascii "HTTP/1.1") no_blank
      ((λ e. absurd (omega (arith, e))), tt) ((λ e. absurd (omega (arith, e))), tt)
      ((λ e. absurd (omega (arith, e))), tt)
