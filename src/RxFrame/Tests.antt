-- ===== src/RxFrame/Tests.antt =====
-- A frame of the protocol, for the channel 7669206.
use open_prlx.Prelude.{
  ◌≡◌, ◌↔◌, refl, arith, Bool, true, some, [], ◌∷◌, ◌++◌, take, drop, replicate,
}
use open_prlx.Wire.{Bytes}
use open_prlx.RxFrame.{is_valid_wfb_frame, matches_channel_id}
use open_prlx.RxFrame.Checks.{IsWfb, is_valid_wfb_frame-IsWfb, matches_channel_id-addresses}

abbrev address : Bytes
address = 0x57 ∷ 0x42 ∷ 1 ∷ 2 ∷ 3 ∷ 4 ∷ []

abbrev frame : Bytes
frame = (8 ∷ 1 ∷ []) ++ (replicate 8 255 ++ (address ++ (address ++ replicate 20 0)))

frame-IsWfb : IsWfb frame
frame-IsWfb = record { long = omega arith; type_0 = refl; type_1 = refl; id = refl; port = refl }

is_valid_wfb_frame-IsWfb_example :
    (b : Bool) × (is_valid_wfb_frame frame ≡ some b) × ((b ≡ true) ↔ IsWfb frame)
is_valid_wfb_frame-IsWfb_example = is_valid_wfb_frame-IsWfb frame

matches_channel_id-addresses_example :
    (b : Bool) × (matches_channel_id frame (1 ∷ 2 ∷ 3 ∷ 4 ∷ []) ≡ some b)
    × ((b ≡ true) ↔ (
        take 12 (drop 10 frame) ≡ 0x57 ∷ 0x42 ∷ 1 ∷ 2 ∷ 3 ∷ 4 ∷ 0x57 ∷ 0x42 ∷ 1 ∷ 2 ∷ 3 ∷ 4 ∷ []))
matches_channel_id-addresses_example = matches_channel_id-addresses frame 1 2 3 4 frame-IsWfb
