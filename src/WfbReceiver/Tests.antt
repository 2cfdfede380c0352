-- ===== src/WfbReceiver/Tests.antt =====
-- A packet that `handleRtp` sends on.
use open_prlx.Prelude.{
  ◌≡◌, refl, arith, true, false, Option, some, [], ◌∷◌, ◌++◌, replicate, negsuc, pos,
}
use open_prlx.Wire.{Bytes}
use open_prlx.Context.{Context, auto, idle, no_sets}
use open_prlx.Sdp.{sdp_params_complete}
use open_prlx.WfbReceiver.{handle_rtp}
use open_prlx.WfbReceiver.Tracks.{IsTracked}
use open_prlx.WfbReceiver.Handled.{Handled, handle_rtp-Handled}

abbrev pub fresh : Context
fresh = record {
  out_port = pos 5600;
  codec_hint = auto;
  codec = auto;
  wifi_frame_count = 0;
  wfb_frame_count = 0;
  rtp_pkt_count = 0;
  rtp_payload_type = negsuc 0;
  ssrc = 0;
  described = false;
  sdp = no_sets;
  have_param_sets = false;
  capture_finished = false;
  state = idle;
  should_stop = false;
  last_error = [];
  session_cfg = record { vidpid = []; channel = pos 161; width = pos 0; key = [] };
  reqs = record {
    start_pending = false;
    stop_pending = false;
    tune_pending = false;
    pending_channel = pos 0;
    pending_width = negsuc 0;
    key_pending = false;
    pending_key = replicate 64 0;
  };
}

pub fresh-IsTracked : IsTracked fresh
unfolding sdp_params_complete
fresh-IsTracked = record { latched = refl; clear = λ _. refl }

-- A header of version 2, payload type 96, and an SPS of H.264 in the payload.
abbrev packet : Bytes
packet = (128 ∷ 96 ∷ 0 ∷ 1 ∷ []) ++ (replicate 8 0 ++ ((103 ∷ 66 ∷ []) ++ replicate 80 0))

handle_rtp-Handled_example :
    (r : Context × Option Bytes) × (handle_rtp fresh true packet 14 ≡ some r)
    × Handled fresh true packet 14 r
handle_rtp-Handled_example =
    handle_rtp-Handled fresh true packet 14 fresh-IsTracked (omega arith) (omega arith)
