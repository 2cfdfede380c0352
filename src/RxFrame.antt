-- ===== src/RxFrame.antt =====
-- src/wifi/RxFrame.h: the checks on a received 802.11 frame. A read past the frame's end is
-- undefined, and `none` stands for it.
pub mod Checks
mod Tests
use open_prlx.Prelude.{
  ℕ, ◌-◌, ◌==◌, not, if◌then◌else◌, ltb, leb, Bool, true, false, Option, none, some, [], ◌∷◌, take,
  drop, length, get_elem?, ◌>>=◌, ◌and_then◌,
}
use open_prlx.Wire.{Bytes}

unfoldable pub payload_span : Bytes → Bytes
payload_span frame = if ltb (length frame) 28 then [] else take (length frame - 28) (drop 24 frame)

unfoldable pub same_at : Bytes → ℕ → Bytes → ℕ → Option Bool
same_at xs i ys j = do x ← get_elem? xs i; y ← get_elem? ys j; some (x == y)

unfoldable pub is_data_frame : Bytes → Option Bool
is_data_frame frame =
    some (leb 2 (length frame))
    and_then same_at frame 0 (8 ∷ 1 ∷ []) 0
    and_then same_at frame 1 (8 ∷ 1 ∷ []) 1

unfoldable pub has_valid_air_gnd_id : Bytes → Option Bool
has_valid_air_gnd_id frame = some (leb 18 (length frame)) and_then same_at frame 10 frame 16

unfoldable pub has_valid_radio_port : Bytes → Option Bool
has_valid_radio_port frame = some (leb 22 (length frame)) and_then same_at frame 15 frame 21

unfoldable pub is_valid_wfb_frame : Bytes → Option Bool
is_valid_wfb_frame frame =
    some (not (length frame == 0))
    and_then is_data_frame frame
    and_then some (not (length (payload_span frame) == 0))
    and_then has_valid_air_gnd_id frame
    and_then has_valid_radio_port frame

unfoldable pub matches_channel_id : Bytes → Bytes → Option Bool
matches_channel_id frame channel_id =
    same_at frame 10 (0x57 ∷ 0x42 ∷ []) 0
    and_then same_at frame 11 (0x57 ∷ 0x42 ∷ []) 1
    and_then same_at frame 12 channel_id 0
    and_then same_at frame 13 channel_id 1
    and_then same_at frame 14 channel_id 2
    and_then same_at frame 15 channel_id 3
    and_then same_at frame 16 (0x57 ∷ 0x42 ∷ []) 0
    and_then same_at frame 17 (0x57 ∷ 0x42 ∷ []) 1
    and_then same_at frame 18 channel_id 0
    and_then same_at frame 19 channel_id 1
    and_then same_at frame 20 channel_id 2
    and_then same_at frame 21 channel_id 3
