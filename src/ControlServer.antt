-- ===== src/ControlServer.antt =====
-- src/ControlServer.h: the handlers of the control API's requests. Sockets are left out. A request is
-- what `recvRequest` gives, which is in Receive. Of a response there are the code and what its body
-- reports, of which Reply makes the texts.
pub mod Text
pub mod Query
pub mod Search
pub mod Numbers
pub mod Tune
pub mod Routes
pub mod Answers
pub mod Effects
pub mod Receive
pub mod Reply
mod Tests
use open_prlx.Prelude.{
  ℕ, pos, ◌==◌, ◌&&◌, ◌||◌, not, if◌then◌else◌, ltb, Bool, true, false, Option, none, some, List,
  [], ◌∷◌, ℤ, negsuc, take, drop, length,
}
use open_prlx.Wire.{Bytes, same_bytes}
use open_prlx.Context.{
  Context, Codec, ParamSets, SessionState, idle, starting, streaming, error, stopping, auto, h264,
  h265, is_valid_channel, is_valid_width, merge_session_config, request_start, request_stop,
  request_tune, request_key,
}
use open_prlx.ControlServer.Text.{
  to_lower, header_value, query_value, json_find_string, json_find_int, token_equal,
}

-- What `KeyVault` is asked for: `ok`, `openSealedBase64` and the public key.
pub record Vault : Type 0 where
  pub ok : Bool
  pub open_sealed : Bytes → Option Bytes
  pub pubkey : Bytes

-- `last_pkts` is a member of the server.
pub record Server : Type 0 where
  pub token : Bytes
  pub last_pkts : ℕ

pub record Request : Type 0 where
  pub method : Bytes
  pub path : Bytes
  pub query : Bytes
  pub headers : Bytes
  pub body : Bytes

pub record Health : Type 0 where
  pub state : SessionState
  pub streaming_now : Bool
  pub capture_alive : Bool
  pub packets_forwarded : ℕ
  pub wfb_frames : ℕ
  pub wifi_frames : ℕ
  pub codec : Codec
  pub rtp_payload_type : ℤ
  pub ssrc : ℕ
  pub sdp_ready : Bool
  pub param_sets : Bool
  pub pubkey : Bytes
  pub port : ℤ
  pub last_error : Option Bytes

-- What the body of a response reports.
pub data Body : Type 0 where
  message : Body
  health_of : Health → Body
  sdp_of : Codec → ℤ → ℤ → ParamSets → Body
  pubkey_of : Bytes → Body

pub record Response : Type 0 where
  pub code : ℕ
  pub body : Body

abbrev pub plain : ℕ → Response
plain code = record { code = code; body = message }

unfoldable pub authorized : Server → Bytes → Bytes → Bool
authorized server headers query =
    let auth =
      header_value headers
        (65 ∷ 117 ∷ 116 ∷ 104 ∷ 111 ∷ 114 ∷ 105 ∷ 122 ∷ 97 ∷ 116 ∷ 105 ∷ 111 ∷ 110 ∷ []) in
    let bearer : Bytes = 98 ∷ 101 ∷ 97 ∷ 114 ∷ 101 ∷ 114 ∷ 32 ∷ [] in
    (length server.token == 0)
    || (ltb 7 (length auth)
        && same_bytes (to_lower (take 7 auth)) bearer
        && token_equal (drop 7 auth) server.token)
    || token_equal (query_value query (116 ∷ 111 ∷ 107 ∷ 101 ∷ 110 ∷ [])) server.token

abbrev pub is_busy : SessionState → Bool
is_busy starting = true
is_busy streaming = true
is_busy stopping = true
is_busy idle = false
is_busy error = false

abbrev pub is_streaming : SessionState → Bool
is_streaming streaming = true
is_streaming s = false

abbrev pub holds : (ℤ → Bool) → Option ℤ → Bool
holds test none = true
holds test (some n) = test n

-- The names of the fields, in ASCII: "vidpid", "key", "channel", "width" and "sealed".
abbrev pub vidpid_field : Bytes
vidpid_field = 118 ∷ 105 ∷ 100 ∷ 112 ∷ 105 ∷ 100 ∷ []

abbrev pub key_field : Bytes
key_field = 107 ∷ 101 ∷ 121 ∷ []

abbrev pub channel_field : Bytes
channel_field = 99 ∷ 104 ∷ 97 ∷ 110 ∷ 110 ∷ 101 ∷ 108 ∷ []

abbrev pub width_field : Bytes
width_field = 119 ∷ 105 ∷ 100 ∷ 116 ∷ 104 ∷ []

abbrev pub sealed_field : Bytes
sealed_field = 115 ∷ 101 ∷ 97 ∷ 108 ∷ 101 ∷ 100 ∷ []

unfoldable pub handle_start : Context → Bytes → Context × Response
handle_start ctx body =
    let channel = json_find_int body channel_field in
    let width = json_find_int body width_field in
    if is_busy ctx.state
    then (ctx, plain 409)
    else if not (holds is_valid_channel channel) || not (holds is_valid_width width)
    then (ctx, plain 400)
    else (
      request_start (
          merge_session_config ctx (json_find_string body vidpid_field) channel width
            (json_find_string body key_field)),
      plain 202,
    )

abbrev pub is_keep : ℤ → Bool
is_keep (negsuc n) = n == 0
is_keep (pos n) = false

unfoldable pub tune_to : Context → ℤ → ℤ → Context × Response
tune_to ctx channel width =
    if not (is_valid_channel channel) || (not (is_keep width) && not (is_valid_width width))
    then (ctx, plain 400)
    else (request_tune ctx channel width, plain 202)

abbrev pub or_keep : Option ℤ → ℤ
or_keep none = negsuc 0
or_keep (some w) = w

unfoldable pub handle_tune : Context → Bytes → Context × Response
handle_tune ctx body =
    if not (is_streaming ctx.state)
    then (ctx, plain 409)
    else elim (json_find_int body channel_field) [
      | none ↦ (ctx, plain 400)
      | some channel ↦ tune_to ctx channel (or_keep (json_find_int body width_field))
    ]

unfoldable pub handle_sdp : Context → Response
handle_sdp ctx = elim ctx.codec [
  | auto ↦ plain 503
  | h264 ↦ record { code = 200; body = sdp_of h264 ctx.rtp_payload_type ctx.out_port ctx.sdp }
  | h265 ↦ record { code = 200; body = sdp_of h265 ctx.rtp_payload_type ctx.out_port ctx.sdp }
]

-- A field that is empty is refused as one that is absent.
unfoldable pub handle_key : Vault → Context → Bytes → Context × Response
handle_key vault ctx body =
    if not vault.ok then (ctx, plain 503) else elim (json_find_string body sealed_field) [
      | none ↦ (ctx, plain 400)
      | some [] ↦ (ctx, plain 400)
      | some (c ∷ b64) ↦ elim (vault.open_sealed (c ∷ b64)) [
        | none ↦ (ctx, plain 400)
        | some key ↦ (request_key ctx key, plain 202)
      ]
    ]

unfoldable pub health : Vault → Server → Context → Server × Health
health vault server ctx = (
  record server { last_pkts = ctx.rtp_pkt_count },
  record {
    state = ctx.state;
    streaming_now = ltb server.last_pkts ctx.rtp_pkt_count;
    capture_alive = is_busy ctx.state;
    packets_forwarded = ctx.rtp_pkt_count;
    wfb_frames = ctx.wfb_frame_count;
    wifi_frames = ctx.wifi_frame_count;
    codec = ctx.codec;
    rtp_payload_type = ctx.rtp_payload_type;
    ssrc = ctx.ssrc;
    sdp_ready = elim ctx.codec [ auto ↦ false | h264 ↦ true | h265 ↦ true ];
    param_sets = ctx.have_param_sets;
    pubkey = vault.pubkey;
    port = ctx.out_port;
    last_error = elim ctx.state [
      | error ↦ some ctx.last_error
      | idle ↦ none
      | starting ↦ none
      | streaming ↦ none
      | stopping ↦ none
    ];
  },
)
