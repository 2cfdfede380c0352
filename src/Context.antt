-- ===== src/Context.antt =====
-- src/Context.h: the state that the threads of the daemon share. The mutexes make each of these
-- functions one step. The logger, the socket and the calls of Winsock are left out.
pub mod Mailbox
use open_prlx.Prelude.{
  ℕ, ◌==◌, ◌&&◌, ◌||◌, if◌then◌else◌, leb, Bool, true, false, Option, none, some, List, [], ◌∷◌, ℤ,
  pos, negsuc, replicate, map, ascii,
}
use open_prlx.Wire.{Bytes, same_bytes}

pub data SessionState : Type 0 where
  idle : SessionState
  starting : SessionState
  streaming : SessionState
  error : SessionState
  stopping : SessionState

pub data Codec : Type 0 where
  auto : Codec
  h264 : Codec
  h265 : Codec

-- The names that `parseCodec` knows, in ASCII.
unfoldable pub parse_codec : Bytes → Codec
parse_codec s =
    if same_bytes s (72 ∷ 50 ∷ 54 ∷ 52 ∷ []) || same_bytes s (104 ∷ 50 ∷ 54 ∷ 52 ∷ [])
    then h264
    else if same_bytes s (72 ∷ 50 ∷ 54 ∷ 53 ∷ [])
        || same_bytes s (104 ∷ 50 ∷ 54 ∷ 53 ∷ [])
        || same_bytes s (72 ∷ 69 ∷ 86 ∷ 67 ∷ [])
        || same_bytes s (104 ∷ 101 ∷ 118 ∷ 99 ∷ [])
    then h265
    else auto

abbrev pub in_range : ℕ → ℕ → ℤ → Bool
in_range low high (pos n) = leb low n && leb n high
in_range low high (negsuc n) = false

unfoldable pub is_valid_channel : ℤ → Bool
is_valid_channel ch = in_range 1 177 ch

unfoldable pub is_valid_width : ℤ → Bool
is_valid_width w = in_range 0 2 w

unfoldable pub is_valid_port : ℤ → Bool
is_valid_port p = in_range 1 65535 p

pub record SessionConfig : Type 0 where
  pub vidpid : Bytes
  pub channel : ℤ
  pub width : ℤ
  pub key : Bytes

pub record ControlRequests : Type 0 where
  pub start_pending : Bool
  pub stop_pending : Bool
  pub tune_pending : Bool
  pub pending_channel : ℤ
  pub pending_width : ℤ
  pub key_pending : Bool
  pub pending_key : Bytes

-- The members `sdpVps`, `sdpSps` and `sdpPps`.
pub record ParamSets : Type 0 where
  pub vps : Bytes
  pub sps : Bytes
  pub pps : Bytes

abbrev pub no_sets : ParamSets
no_sets = record { vps = []; sps = []; pps = [] }

pub record Context : Type 0 where
  pub out_port : ℤ
  pub codec_hint : Codec
  pub codec : Codec
  pub wifi_frame_count : ℕ
  pub wfb_frame_count : ℕ
  pub rtp_pkt_count : ℕ
  pub rtp_payload_type : ℤ
  pub ssrc : ℕ
  pub described : Bool
  pub sdp : ParamSets
  pub have_param_sets : Bool
  pub capture_finished : Bool
  pub state : SessionState
  pub should_stop : Bool
  pub last_error : Bytes
  pub session_cfg : SessionConfig
  pub reqs : ControlRequests

unfoldable pub set_error : Context → Bytes → Context
set_error ctx msg = record ctx { last_error = msg; state = error }

unfoldable pub reset_detection : Context → Context
reset_detection ctx = record ctx {
  described = false;
  rtp_payload_type = negsuc 0;
  codec = ctx.codec_hint;
  have_param_sets = false;
  sdp = no_sets;
}

unfoldable pub set_session_config : Context → SessionConfig → Context
set_session_config ctx c = record ctx { session_cfg = c }

abbrev pub or_old {ℓ} : {A : Type ℓ} → Option A → A → A
or_old none old = old
or_old (some new) old = new

-- A pair of a `has` flag and a value is an option.
unfoldable pub merge_session_config :
    Context → Option Bytes → Option ℤ → Option ℤ → Option Bytes → Context
merge_session_config ctx vidpid channel width key = record ctx {
  session_cfg = record {
    vidpid = or_old vidpid ctx.session_cfg.vidpid;
    channel = or_old channel ctx.session_cfg.channel;
    width = or_old width ctx.session_cfg.width;
    key = or_old key ctx.session_cfg.key;
  };
}

unfoldable pub request_start : Context → Context
request_start ctx = record ctx { reqs = record (ctx.reqs) { start_pending = true } }

unfoldable pub request_stop : Context → Context
request_stop ctx = record ctx { reqs = record (ctx.reqs) { stop_pending = true } }

unfoldable pub request_tune : Context → ℤ → ℤ → Context
request_tune ctx channel width = record ctx {
  reqs = record (ctx.reqs) {
    tune_pending = true;
    pending_channel = channel;
    pending_width = width;
  };
}

unfoldable pub take_start : Context → Context × Bool
take_start ctx =
    (record ctx { reqs = record (ctx.reqs) { start_pending = false } }, ctx.reqs.start_pending)

unfoldable pub take_stop : Context → Context × Bool
take_stop ctx =
    (record ctx { reqs = record (ctx.reqs) { stop_pending = false } }, ctx.reqs.stop_pending)

unfoldable pub take_tune : Context → Context × Option (ℤ × ℤ)
take_tune ctx =
    if ctx.reqs.tune_pending
    then (
      record ctx { reqs = record (ctx.reqs) { tune_pending = false } },
      some (ctx.reqs.pending_channel, ctx.reqs.pending_width),
    )
    else (ctx, none)

unfoldable pub clear_tune : Context → Context
clear_tune ctx = record ctx { reqs = record (ctx.reqs) { tune_pending = false } }

unfoldable pub request_key : Context → Bytes → Context
request_key ctx key64 = record ctx {
  reqs = record (ctx.reqs) { pending_key = key64; key_pending = true };
}

-- The staged copy is wiped.
unfoldable pub take_key : Context → Context × Option Bytes
take_key ctx =
    if ctx.reqs.key_pending
    then (
      record ctx { reqs = record (ctx.reqs) { key_pending = false; pending_key = replicate 64 0 } },
      some ctx.reqs.pending_key,
    )
    else (ctx, none)

unfoldable pub state_name : SessionState → Bytes
state_name idle = ascii "idle"
state_name starting = ascii "starting"
state_name streaming = ascii "streaming"
state_name error = ascii "error"
state_name stopping = ascii "stopping"

unfoldable pub codec_name : Codec → Bytes
codec_name h264 = ascii "H264"
codec_name h265 = ascii "H265"
codec_name auto = ascii "AUTO"
