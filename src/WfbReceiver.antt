-- ===== src/WfbReceiver.antt =====
-- `handleRtp` of src/wifi/WFBReceiver.cpp: what becomes of a payload that the aggregator hands on.
-- The log and the socket are left out: the result says what is sent. A read past the buffer is
-- `none`.
pub mod Tracks
pub mod Handled
pub mod Frames
pub mod Dongles
mod Tests
use open_prlx.Prelude.{
  slice?, ℕ, zero, suc, ◌+◌, ◌%◌, ◌^◌, ◌==◌, ◌&&◌, ◌||◌, not, if◌then◌else◌, ltb, Bool, true, false,
  Option, none, some, List, [], ◌∷◌, ℤ, pos, pos_part, take, drop, get_elem?, ◌>>=◌,
}
use open_prlx.Wire.{Bytes, be_to_host}
use open_prlx.Context.{Codec, auto, h264, h265, Context}
use open_prlx.Rtp.{pt_of, get_payload_offset, get_payload_size}
use open_prlx.Sdp.{Capture, sdp_extract_param_sets, sdp_params_complete}

unfoldable pub is_auto : Codec → Bool
is_auto auto = true
is_auto h264 = false
is_auto h265 = false

unfoldable pub sniff_codec : ℕ → Codec
sniff_codec byte =
    let t = byte % 32 in
    if (t == 1) || (t == 5) || (t == 7) || (t == 24) || (t == 28) then h264 else h265

-- `getPayloadData` is the buffer from `12 + getPayloadOffset()` on.
unfoldable pub sniff_payload : Context → Bytes → ℕ → Option Context
sniff_payload ctx buf zero = some ctx
sniff_payload ctx buf (suc n) = do
  offset ← get_payload_offset buf
  byte ← get_elem? buf (12 + offset)
  some (record ctx { codec = sniff_codec byte })

unfoldable pub detect_codec : Context → Bytes → ℕ → Option Context
detect_codec ctx buf size =
    if is_auto ctx.codec
    then (do plen ← get_payload_size buf size; sniff_payload ctx buf (pos_part plen))
    else some ctx

-- The one-shot description of the stream; `ssrc` is in network order.
unfoldable pub describe : Context → Bytes → Option Context
describe ctx buf = if ctx.described then some ctx else (do
  byte ← get_elem? buf 1
  ssrc ← slice? buf 8 4
  some (record ctx {
    described = true;
    rtp_payload_type = pos (pt_of byte);
    ssrc = be_to_host ssrc;
  }))

-- What the parameter sets of a payload change.
unfoldable pub keep_sets : Context → Capture → Context
keep_sets ctx (captured, sets) = record ctx {
  sdp = sets;
  have_param_sets = ctx.have_param_sets || (captured && sdp_params_complete ctx.codec sets);
}

unfoldable pub capture_payload : Context → Bytes → ℕ → Option Context
capture_payload ctx buf zero = some ctx
capture_payload ctx buf (suc n) = do
  offset ← get_payload_offset buf
  payload ← slice? buf (12 + offset) (suc n)
  r ← sdp_extract_param_sets ctx.codec payload ctx.sdp
  some (keep_sets ctx r)

unfoldable pub capture_sets : Context → Bytes → ℕ → Option Context
capture_sets ctx buf size = if ctx.have_param_sets then some ctx else (do
  plen ← get_payload_size buf size
  if is_auto ctx.codec then some ctx else capture_payload ctx buf (pos_part plen))

-- The result has the bytes that `sendto` is given, if it is called. `device` is whether the
-- receiver has a device.
unfoldable pub handle_rtp : Context → Bool → Bytes → ℕ → Option (Context × Option Bytes)
handle_rtp ctx device buf packet_size =
    if not device || ctx.should_stop
    then some (ctx, none)
    else (let counted = record ctx { rtp_pkt_count = (ctx.rtp_pkt_count + 1) % 2 ^ 64 } in
        if ltb packet_size 12 then some (counted, none) else (do
          detected ← detect_codec counted buf packet_size
          described ← describe detected buf
          captured ← capture_sets described buf packet_size
          packet ← slice? buf 0 packet_size
          some (captured, some packet)))
