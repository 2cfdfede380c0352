-- ===== src/WfbReceiver/Frames/Tests.antt =====
-- Frames of the link that the capture thread reads.
use open_prlx.Prelude.{
  ◌≡◌, ◌↔◌, inr, arith, true, none, some, List, [], ◌∷◌, ◌++◌, replicate, ℤ, pos, negsuc,
}
use open_prlx.Wire.{Bytes}
use open_prlx.Aggregator.{new}
use open_prlx.Aggregator.Toy.{
  session, session-InSession, data_packet, whole_toy, whole_toy-HasTag, whole_toy-MakesBlocks,
}
use open_prlx.Aggregator.Whole.{init_fec-IsHeld}
use open_prlx.WfbReceiver.Tests.{fresh, fresh-IsTracked}
use open_prlx.WfbReceiver.Frames.{Receiver, Round, handle_80211_frame, capture_round}
use open_prlx.WfbReceiver.Frames.Ready.{
  IsReady, Ends, IsFine, handle_80211_frame-Ends, capture_round-IsFine,
}
use open_prlx.WfbReceiver.Frames.Reads.{streak, IsFatal, streak-none_iff}

-- A session, and a device.
abbrev receiver : Receiver
receiver = record {
  ctx = fresh;
  aggregator = some session;
  device = true;
  cur_channel = 161;
  cur_width = pos 0;
  out = [];
}

receiver-IsReady : IsReady receiver
unfolding new
receiver-IsReady = record {
  tracked = fresh-IsTracked;
  sound = (inr (1, 2, session-InSession), init_fec-IsHeld _ 1 2 tt);
}

abbrev address : Bytes
address = 0x57 ∷ 0x42 ∷ 0x75 ∷ 0x05 ∷ 0xD6 ∷ 0 ∷ []

-- The first data packet of block 0.
abbrev frame : Bytes
frame =
    (8 ∷ 1 ∷ [])
    ++ (replicate 8 255
        ++ (address ++ (address ++ (0 ∷ 0 ∷ []) ++ (data_packet 0 ++ replicate 4 0))))

handle_80211_frame-Ends_example :
    Ends whole_toy receiver frame (handle_80211_frame whole_toy receiver frame)
handle_80211_frame-Ends_example =
    handle_80211_frame-Ends whole_toy whole_toy-HasTag whole_toy-MakesBlocks receiver frame
      receiver-IsReady

capture_round-IsFine_example :
    (round : Round) × (capture_round whole_toy
        (λ c w. true)
        receiver
        9
        (negsuc 0)
        (frame ∷ frame ∷ [])
      ≡ some round)
    × IsFine round
capture_round-IsFine_example =
    capture_round-IsFine whole_toy whole_toy-HasTag whole_toy-MakesBlocks (λ c w. true) receiver 9
      (negsuc 0) (frame ∷ frame ∷ []) receiver-IsReady (omega arith)

-- The adapter is gone after an error and a timeout.
abbrev lost : List ℤ
lost = negsuc 3 ∷ negsuc 6 ∷ negsuc 0 ∷ []

streak-none_iff_example : (streak lost ≡ none) ↔ IsFatal lost
streak-none_iff_example = streak-none_iff lost
