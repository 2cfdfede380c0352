-- ===== src/WfbReceiver/Frames.antt =====
-- `handle80211Frame`, `applyPendingControlActions` and the reads of the capture loop, of
-- src/wifi/WFBReceiver.cpp: the capture thread's part of the receiver, over the aggregator.
pub mod Forwarded
pub mod Ready
pub mod Reads
mod Tests
use open_prlx.Prelude.{
  slice?, ltb, ℕ, suc, ◌+◌, ◌-◌, ◌*◌, ◌%◌, ◌^◌, ◌==◌, ◌||◌, if◌then◌else◌, leb, Bool, true, false,
  Option, none, some, List, [], ◌∷◌, ℤ, pos, negsuc, neg_part, take, drop, length, ◌>>=◌,
}
use open_prlx.Wire.{Bytes, htobe32, u32_bytes, to_u8, ieee80211_header_size}
use open_prlx.Context.{Context, take_tune, take_key, reset_detection}
use open_prlx.RxFrame.{is_valid_wfb_frame, matches_channel_id}
use open_prlx.Aggregator.{Aggregator, Sent, new}
use open_prlx.Aggregator.Packet.{Library, process_packet}
use open_prlx.WfbReceiver.{handle_rtp}

-- `device` is whether `rtlDevice_` is set. `out` is not a member: it logs what `sendto` was given,
-- the last one first.
pub record Receiver : Type 0 where
  pub ctx : Context
  pub aggregator : Option Aggregator
  pub device : Bool
  pub cur_channel : ℕ
  pub cur_width : ℤ
  pub out : List Bytes

-- `kLinkId`, with `kVideoRadioPort` 0, as in `channel_id_f`.
abbrev pub channel_id : ℕ
channel_id = (7669206 * 2 ^ 8 + 0) % 2 ^ 32

abbrev pub add_sent : Option Bytes → List Bytes → List Bytes
add_sent none out = out
add_sent (some b) out = b ∷ out

-- A call of `dcb`, if there is one.
unfoldable pub deliver :
    Context × List Bytes → Bool → Option (Bytes × ℕ) → Option (Context × List Bytes)
deliver (ctx, out) device none = some (ctx, out)
deliver (ctx, out) device (some (buf, size)) = do
  (next, sent) ← handle_rtp ctx device buf size
  some (next, add_sent sent out)

-- The calls of `dcb` that `process_packet` makes, in turn: the log has the last one first.
unfoldable pub forward : Context × List Bytes → Bool → List Sent → Option (Context × List Bytes)
forward state device [] = some state
forward state device (s ∷ log) = do
  earlier ← forward state device log
  deliver earlier device s.payload

-- The frame's payload is without its header and the last 4 bytes. The size would wrap for a frame
-- that is shorter than these, which is `none`.
unfoldable pub wfb_payload : Bytes → Option Bytes
wfb_payload frame =
    if ltb (length frame) (ieee80211_header_size + 4)
    then none
    else slice? frame ieee80211_header_size (length frame - ieee80211_header_size - 4)

unfoldable pub pass_on : Library → Receiver → Aggregator → Bytes → Option Receiver
pass_on library r a frame = do
  payload ← wfb_payload frame
  b ← process_packet library a payload
  (ctx, out) ← forward (r.ctx, r.out) r.device b.sent
  some (record r { ctx = ctx; aggregator = some b; out = out })

unfoldable pub handle_wfb_frame : Library → Receiver → Bytes → Option Receiver
handle_wfb_frame library r frame = elim (r.aggregator) [
  | none ↦ some r
  | some a ↦ do
    ours ← matches_channel_id frame (u32_bytes (htobe32 channel_id))
    if ours then pass_on library r a frame else some r
]

abbrev pub count_wifi : Receiver → Receiver
count_wifi r = record r {
  ctx = record (r.ctx) { wifi_frame_count = (r.ctx.wifi_frame_count + 1) % 2 ^ 64 };
}

abbrev pub count_wfb : Receiver → Receiver
count_wfb r = record r {
  ctx = record (r.ctx) { wfb_frame_count = (r.ctx.wfb_frame_count + 1) % 2 ^ 64 };
}

unfoldable pub handle_80211_frame : Library → Receiver → Bytes → Option Receiver
handle_80211_frame library r frame = do
  valid ← is_valid_wfb_frame frame
  if valid then handle_wfb_frame library (count_wfb (count_wifi r)) frame else some (count_wifi r)

-- `SetMonitorChannel` is given the channel and the width, and may throw, which is `false`.
unfoldable pub apply_tune : (ℕ → ℤ → Bool) → Receiver → Receiver
apply_tune set_channel r =
    let (ctx, staged) = take_tune r.ctx in
    elim staged [
      | none ↦ record r { ctx = ctx }
      | some (ch, w) ↦
          let width = if neg_part w == 0 then w else r.cur_width in
          if set_channel (to_u8 ch) width
          then record r { ctx = reset_detection ctx; cur_channel = to_u8 ch; cur_width = width }
          else record r { ctx = ctx }
    ]

-- The old aggregator is freed.
unfoldable pub apply_key : Receiver → Receiver
apply_key r =
    let (ctx, staged) = take_key r.ctx in
    elim staged [
      | none ↦ record r { ctx = ctx }
      | some key ↦ record r {
        ctx = reset_detection ctx;
        aggregator = some (new key 0 channel_id true);
      }
    ]

unfoldable pub apply_pending_control_actions : (ℕ → ℤ → Bool) → Receiver → Receiver
apply_pending_control_actions set_channel r = apply_key (apply_tune set_channel r)

-- LIBUSB_ERROR_NO_DEVICE, LIBUSB_ERROR_NOT_FOUND and LIBUSB_ERROR_TIMEOUT.
abbrev pub is_gone : ℤ → Bool
is_gone rc = (neg_part rc == 4) || (neg_part rc == 5)

abbrev pub is_timeout : ℤ → Bool
is_timeout rc = neg_part rc == 7

-- What the loop makes of the result of a read, with `consecutiveErrors` before and after; `none` is
-- an exception, which ends the session.
unfoldable pub check_read : ℕ → ℤ → Option ℕ
check_read errors rc =
    if is_gone rc
    then none
    else if is_timeout rc
    then some errors
    else if neg_part rc == 0
    then some 0
    else if leb 10 (errors + 1)
    then none
    else some (errors + 1)

unfoldable pub handle_frames : Library → Receiver → List Bytes → Option Receiver
handle_frames library r [] = some r
handle_frames library r (frame ∷ frames) = do
  next ← handle_80211_frame library r frame
  handle_frames library next frames

-- How a round of the loop ends.
pub data Round : Type 0 where
  goes_on : Receiver → ℕ → Round
  throws : Receiver → Round

abbrev pub go_on : ℕ → Receiver → Option Round
go_on errors r = some (goes_on r errors)

-- A round, whose read gives `rc` and the frames.
unfoldable pub capture_round :
    Library → (ℕ → ℤ → Bool) → Receiver → ℕ → ℤ → List Bytes → Option Round
capture_round library set_channel r errors rc frames =
    let ready = apply_pending_control_actions set_channel r in
    elim (check_read errors rc) [
      | none ↦ some (throws ready)
      | some errors' ↦ handle_frames library ready frames >>= go_on errors'
    ]
