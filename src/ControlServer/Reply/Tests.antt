-- ===== src/ControlServer/Reply/Tests.antt =====
-- The texts of responses and of a report.
use open_prlx.Prelude.{
  true, pos, negsuc, ◌≡◌, refl, false, none, if◌then◌else◌, some, List, [], ◌∷◌, ◌++◌, ascii, lacks,
  lacks-IsLine, print_lines,
}
use open_prlx.Wire.{Bytes}
use open_prlx.Context.{error, h265}
use open_prlx.ControlServer.{Health}
use open_prlx.ControlServer.Reply.{respond, json_escape, health_text}
use open_prlx.ControlServer.Reply.Report.{read_object}
use open_prlx.ControlServer.Reply.Fields.{report_fields, health_text-read_object}
use open_prlx.ControlServer.Reply.Reads.{no_control, read_string, json_escape-read_string}
use open_prlx.ControlServer.Reply.Heads.{read_head, head_of, respond-read_head}

-- A text with a quote and a backslash.
json_escape-read_string_example :
    read_string (json_escape (ascii "no \"wlan\\0\"") ++ (34 ∷ ascii "}")) false ≡ (
      if no_control (ascii "no \"wlan\\0\"")
      then some (ascii "no \"wlan\\0\"", ascii "}")
      else none)
json_escape-read_string_example = json_escape-read_string (ascii "no \"wlan\\0\"") (ascii "}")

abbrev report : Health
report = record {
  state = error;
  streaming_now = false;
  capture_alive = true;
  packets_forwarded = 1500;
  wfb_frames = 1600;
  wifi_frames = 1700;
  codec = h265;
  rtp_payload_type = pos 97;
  ssrc = 77;
  sdp_ready = true;
  param_sets = true;
  pubkey = ascii "AAAA";
  port = negsuc 0;
  last_error = some (ascii "no \"wlan0\", \\ {state}");
}

health_text-read_object_example : read_object (health_text report) ≡ some (report_fields report)
health_text-read_object_example = health_text-read_object report refl refl

-- The response to a request without a token.
abbrev extra : List Bytes
extra = ascii "WWW-Authenticate: Bearer" ∷ []

abbrev json : Bytes
json = ascii "application/json"

respond-read_head_example :
    read_head
      (respond 401
        (ascii "Unauthorized")
        (ascii "{\"error\":\"a\r\n\r\n\"}")
        (print_lines extra)
        json)
      false
      []
    ≡ some (
      head_of 401 (ascii "Unauthorized") (ascii "{\"error\":\"a\r\n\r\n\"}") extra json,
      ascii "{\"error\":\"a\r\n\r\n\"}",
    )
unfolding lacks
respond-read_head_example =
    respond-read_head 401 (ascii "Unauthorized") (ascii "{\"error\":\"a\r\n\r\n\"}") extra json
      (lacks-IsLine (ascii "Unauthorized") refl)
      ((lacks-IsLine (ascii "WWW-Authenticate: Bearer") refl, λ e. cc e), tt)
      (lacks-IsLine json refl)
