-- ===== src/ControlServer/Reply/Fields.antt =====
-- The fields of the report of `health` in src/ControlServer.h.
use open_prlx.Prelude.{
  ℕ, suc, ◌≡◌, refl, ap, ap₂, ◌∙◌, if_true, if_false, leb, ◌==◌, ◌&&◌, not, Bool, true, false,
  Option, none, some, List, [], ◌∷◌, All, IsDigit, decimal, decimal-IsDigit, to_string, ℤ, pos,
  negsuc, arith, ascii,
}
use open_prlx.Wire.{Bytes}
use open_prlx.Context.{
  SessionState, idle, starting, streaming, error, stopping, state_name, Codec, auto, h264, h265,
  codec_name,
}
use open_prlx.ControlServer.{Health}
use open_prlx.ControlServer.Reply.{health_text, json_escape}
use open_prlx.ControlServer.Reply.Reads.{add_char, no_control, json_escape-read_string}
use open_prlx.ControlServer.Reply.Report.{
  text, word, Field, read_object, Member, quoted, bare, print_fields, fields_of, Reads, IsWord,
  IsMember, read_object-print_fields,
}

-- The names of the states and of the codecs in the report.
abbrev pub state_word : SessionState → Bytes
state_word idle = ascii "idle"
state_word starting = ascii "starting"
state_word streaming = ascii "streaming"
state_word error = ascii "error"
state_word stopping = ascii "stopping"

abbrev pub codec_word : Codec → Bytes
codec_word h264 = ascii "H264"
codec_word h265 = ascii "H265"
codec_word auto = ascii "AUTO"

abbrev pub bool_word : Bool → Bytes
bool_word true = ascii "true"
bool_word false = ascii "false"

abbrev pub error_fields : Option Bytes → List Field
error_fields none = []
error_fields (some e) = (ascii "lastError", text e) ∷ []

-- The fields that a report has.
abbrev pub report_fields : Health → List Field
report_fields h =
    (ascii "status", text (ascii "ok"))
    ∷ (ascii "apiVersion", text (ascii "1"))
    ∷ (ascii "state", text (state_word h.state))
    ∷ (ascii "streaming", word (bool_word h.streaming_now))
    ∷ (ascii "captureAlive", word (bool_word h.capture_alive))
    ∷ (ascii "packetsForwarded", word (decimal h.packets_forwarded))
    ∷ (ascii "wfbFrames", word (decimal h.wfb_frames))
    ∷ (ascii "wifiFrames", word (decimal h.wifi_frames))
    ∷ (ascii "codec", text (codec_word h.codec))
    ∷ (ascii "rtpPayloadType", word (to_string h.rtp_payload_type))
    ∷ (ascii "ssrc", word (decimal h.ssrc))
    ∷ (ascii "sdpReady", word (bool_word h.sdp_ready))
    ∷ (ascii "paramSets", word (bool_word h.param_sets))
    ∷ (ascii "pubkey", text h.pubkey)
    ∷ (ascii "port", word (to_string h.port))
    ∷ error_fields h.last_error

error_members : Option Bytes → List Member
error_members none = []
error_members (some e) = quoted (ascii "lastError") (json_escape e) e ∷ []

abbrev status : Member
status = quoted (ascii "status") (ascii "ok") (ascii "ok")

-- The fields as they are written, with the names of the state and of the codec.
abbrev members : Bytes → Bytes → Health → List Member
members state codec h =
    quoted (ascii "apiVersion") (ascii "1") (ascii "1")
    ∷ quoted (ascii "state") state state
    ∷ bare (ascii "streaming") (bool_word h.streaming_now)
    ∷ bare (ascii "captureAlive") (bool_word h.capture_alive)
    ∷ bare (ascii "packetsForwarded") (decimal h.packets_forwarded)
    ∷ bare (ascii "wfbFrames") (decimal h.wfb_frames)
    ∷ bare (ascii "wifiFrames") (decimal h.wifi_frames)
    ∷ quoted (ascii "codec") codec codec
    ∷ bare (ascii "rtpPayloadType") (to_string h.rtp_payload_type)
    ∷ bare (ascii "ssrc") (decimal h.ssrc)
    ∷ bare (ascii "sdpReady") (bool_word h.sdp_ready)
    ∷ bare (ascii "paramSets") (bool_word h.param_sets)
    ∷ quoted (ascii "pubkey") h.pubkey h.pubkey
    ∷ bare (ascii "port") (to_string h.port)
    ∷ error_members h.last_error

state_name-state_word : (s : SessionState) → state_name s ≡ state_word s
unfolding state_name
state_name-state_word idle = refl
state_name-state_word starting = refl
state_name-state_word streaming = refl
state_name-state_word error = refl
state_name-state_word stopping = refl

codec_name-codec_word : (c : Codec) → codec_name c ≡ codec_word c
unfolding codec_name
codec_name-codec_word auto = refl
codec_name-codec_word h264 = refl
codec_name-codec_word h265 = refl

-- The text is that of the fields.
written :
    (h : Health) (last : Option Bytes)
    → health_text (record h { last_error = last })
      ≡ 123
        ∷ print_fields status
            (members (state_name h.state) (codec_name h.codec) (record h { last_error = last }))
unfolding health_text error_members
written h none = refl
written h (some e) = refl

-- A text that JSON has in quotes as it is.
abbrev pub is_plain : Bytes → Bool
is_plain [] = true
is_plain (c ∷ s) = (not (c == 34) && not (c == 92) && leb 32 c) && is_plain s

is_plain-Reads : (s : Bytes) → is_plain s ≡ true → Reads s s
unfolding Reads
is_plain-Reads [] h rest = refl
is_plain-Reads (c ∷ s) h rest =
    if_false {b = c == 34} _ _ (ground (arith, h))
    ∙ if_false {b = c == 92} _ _ (ground (arith, h))
    ∙ if_true {b = leb 32 c} _ none (ground (arith, h))
    ∙ ap (add_char c) (is_plain-Reads s (ground (arith, h)) rest)

json_escape-Reads : (e : Bytes) → no_control e ≡ true → Reads (json_escape e) e
unfolding Reads
json_escape-Reads e h rest = json_escape-read_string e rest ∙ if_true (some (e, rest)) none h

digits-IsWord : (s : Bytes) → All IsDigit s → IsWord s
digits-IsWord [] h = tt
digits-IsWord (c ∷ s) h = (
  ((λ e. omega (arith, e, h.0.0)), (λ e. omega (arith, e, h.0.1)), (λ e. omega (arith, e, h.0.0))),
  digits-IsWord s h.1,
)

decimal-IsWord : (n : ℕ) → IsWord (decimal n)
decimal-IsWord n = digits-IsWord (decimal n) (decimal-IsDigit n)

to_string-IsWord : (z : ℤ) → IsWord (to_string z)
unfolding to_string
to_string-IsWord (pos n) = decimal-IsWord n
to_string-IsWord (negsuc n) = (
  ((λ e. omega (arith, e)), (λ e. omega (arith, e)), (λ e. omega (arith, e))),
  decimal-IsWord (suc n),
)

is_word : Bytes → Bool
is_word [] = true
is_word (c ∷ s) = (not (c == 44) && not (c == 125) && not (c == 34)) && is_word s

is_word-IsWord : (s : Bytes) → is_word s ≡ true → IsWord s
unfolding is_word
is_word-IsWord [] h = tt
is_word-IsWord (c ∷ s) h = (
  ((λ e. ground (arith, e, h)), (λ e. ground (arith, e, h)), (λ e. ground (arith, e, h))),
  is_word-IsWord s (ground (arith, h)),
)

bool_word-IsWord : (b : Bool) → IsWord (bool_word b)
unfolding is_word
bool_word-IsWord true = is_word-IsWord (ascii "true") refl
bool_word-IsWord false = is_word-IsWord (ascii "false") refl

state_word-Reads : (s : SessionState) → Reads (state_word s) (state_word s)
state_word-Reads idle = is_plain-Reads (ascii "idle") refl
state_word-Reads starting = is_plain-Reads (ascii "starting") refl
state_word-Reads streaming = is_plain-Reads (ascii "streaming") refl
state_word-Reads error = is_plain-Reads (ascii "error") refl
state_word-Reads stopping = is_plain-Reads (ascii "stopping") refl

codec_word-Reads : (c : Codec) → Reads (codec_word c) (codec_word c)
codec_word-Reads auto = is_plain-Reads (ascii "AUTO") refl
codec_word-Reads h264 = is_plain-Reads (ascii "H264") refl
codec_word-Reads h265 = is_plain-Reads (ascii "H265") refl

-- No error, or one without control characters.
abbrev pub IsSafe : Option Bytes → Type 0
IsSafe none = Unit
IsSafe (some e) = no_control e ≡ true

error_members-IsMember : (last : Option Bytes) → IsSafe last → All IsMember (error_members last)
unfolding error_members
error_members-IsMember none h = tt
error_members-IsMember (some e) h =
    ((is_plain-Reads (ascii "lastError") refl, json_escape-Reads e h), tt)

named : (name : Bytes) → is_plain name ≡ true → Reads name name
named name h = is_plain-Reads name h

members-IsMember :
    (h : Health)
    → is_plain h.pubkey ≡ true
    → IsSafe h.last_error
    → All IsMember (members (state_word h.state) (codec_word h.codec) h)
members-IsMember h key safe = (
  (named (ascii "apiVersion") refl, named (ascii "1") refl),
  (
    (named (ascii "state") refl, state_word-Reads h.state),
    (
      (named (ascii "streaming") refl, bool_word-IsWord h.streaming_now),
      (
        (named (ascii "captureAlive") refl, bool_word-IsWord h.capture_alive),
        (
          (named (ascii "packetsForwarded") refl, decimal-IsWord h.packets_forwarded),
          (
            (named (ascii "wfbFrames") refl, decimal-IsWord h.wfb_frames),
            (
              (named (ascii "wifiFrames") refl, decimal-IsWord h.wifi_frames),
              (
                (named (ascii "codec") refl, codec_word-Reads h.codec),
                (
                  (named (ascii "rtpPayloadType") refl, to_string-IsWord h.rtp_payload_type),
                  (
                    (named (ascii "ssrc") refl, decimal-IsWord h.ssrc),
                    (
                      (named (ascii "sdpReady") refl, bool_word-IsWord h.sdp_ready),
                      (
                        (named (ascii "paramSets") refl, bool_word-IsWord h.param_sets),
                        (
                          (named (ascii "pubkey") refl, is_plain-Reads h.pubkey key),
                          (
                            (named (ascii "port") refl, to_string-IsWord h.port),
                            error_members-IsMember h.last_error safe,
                          ),
                        ),
                      ),
                    ),
                  ),
                ),
              ),
            ),
          ),
        ),
      ),
    ),
  ),
)

matching :
    (h : Health) (last : Option Bytes)
    → fields_of (
        status ∷ members (state_word h.state) (codec_word h.codec) (record h { last_error = last }))
      ≡ report_fields (record h { last_error = last })
unfolding error_members
matching h none = refl
matching h (some e) = refl

-- The body of GET /health, read as JSON, is the object with exactly these fields in this order: the
-- state and the codec by their names, each counter, number and flag as it is, the public key, and the
-- last error exactly if there is one. This supposes that the published key has no quote, backslash or
-- control character, and that the error has no control character.
pub health_text-read_object :
    (h : Health)
    → is_plain h.pubkey ≡ true
    → IsSafe h.last_error
    → read_object (health_text h) ≡ some (report_fields h)
health_text-read_object h key safe =
    ap read_object (
      written h h.last_error
      ∙ ap₂ (λ state codec. 123 ∷ print_fields status (members state codec h))
          (state_name-state_word h.state) (codec_name-codec_word h.codec))
    ∙ read_object-print_fields status (members (state_word h.state) (codec_word h.codec) h)
        (named (ascii "status") refl, named (ascii "ok") refl) (members-IsMember h key safe)
    ∙ ap some (matching h h.last_error)
