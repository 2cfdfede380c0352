-- ===== src/ControlServer/Tests.antt =====
-- A request that the control API answers.
use open_prlx.Prelude.{
  arith, if◌then◌else◌, ◌≡◌, ◌⊎◌, inl, refl, true, false, some, none, [], ◌∷◌, replicate, negsuc,
  pos,
}
use open_prlx.Context.{Context, auto, streaming, no_sets, is_valid_channel, is_valid_width}
use open_prlx.Context.{take_tune, take_key, request_tune}
use open_prlx.Context.Mailbox.{start, key, tune, stage, last_tune, last_key, stage-take}
use open_prlx.ControlServer.{Vault, Server, Request, plain, handle_tune}
use open_prlx.ControlServer.Tune.{tune_body, is_tunable, handle_tune-tune_body}
use open_prlx.ControlServer.Routes.{handle, tune_path, post_method}
use open_prlx.ControlServer.Answers.{IsSound}
use open_prlx.ControlServer.Effects.{handle-refused, handle-IsSound}

abbrev live : Context
live = record {
  out_port = pos 5600;
  codec_hint = auto;
  codec = auto;
  wifi_frame_count = 0;
  wfb_frame_count = 0;
  rtp_pkt_count = 0;
  rtp_payload_type = negsuc 0;
  ssrc = 0;
  described = false;
  sdp = no_sets;
  have_param_sets = false;
  capture_finished = false;
  state = streaming;
  should_stop = false;
  last_error = [];
  session_cfg = record { vidpid = []; channel = pos 161; width = pos 0; key = [] };
  reqs = record {
    start_pending = false;
    stop_pending = false;
    tune_pending = false;
    pending_channel = pos 0;
    pending_width = negsuc 0;
    key_pending = false;
    pending_key = replicate 64 0;
  };
}

live-IsSound : IsSound live
unfolding is_valid_channel is_valid_width
live-IsSound = record { channel = refl; width = refl; tune = inl refl }

abbrev vault : Vault
vault = record { ok = true; open_sealed = λ b. none; pubkey = [] }

abbrev server : Server
server = record { token = []; last_pkts = 0 }

-- POST /tune with the body {"channel":36}.
abbrev to_channel_36 : Request
to_channel_36 = record {
  method = post_method;
  path = tune_path;
  query = [];
  headers = [];
  body = 123 ∷ 34 ∷ 99 ∷ 104 ∷ 97 ∷ 110 ∷ 110 ∷ 101 ∷ 108 ∷ 34 ∷ 58 ∷ 51 ∷ 54 ∷ 125 ∷ [];
}

handle-refused_example :
    ((handle vault server live (some to_channel_36)).1.1.code ≡ 200)
    ⊎ ((handle vault server live (some to_channel_36)).1.1.code ≡ 202)
    ⊎ ((handle vault server live (some to_channel_36)).1.0 ≡ live)
handle-refused_example = handle-refused vault server live (some to_channel_36)

handle-IsSound_example : IsSound (handle vault server live (some to_channel_36)).1.0
handle-IsSound_example = handle-IsSound vault server live (some to_channel_36) live-IsSound

stage-take_example :
    ((take_tune (stage live (tune (pos 36) (pos 0) ∷ start ∷ key [] ∷ []))).1
      ≡ last_tune (take_tune live).1 (tune (pos 36) (pos 0) ∷ start ∷ key [] ∷ []))
    × ((take_key (stage live (tune (pos 36) (pos 0) ∷ start ∷ key [] ∷ []))).1
        ≡ last_key (take_key live).1 (tune (pos 36) (pos 0) ∷ start ∷ key [] ∷ []))
    × ((take_tune (take_tune (stage live (tune (pos 36) (pos 0) ∷ start ∷ key [] ∷ []))).0).1
        ≡ none)
    × ((take_key (take_key (stage live (tune (pos 36) (pos 0) ∷ start ∷ key [] ∷ []))).0).1 ≡ none)
stage-take_example = stage-take live (tune (pos 36) (pos 0) ∷ start ∷ key [] ∷ [])

handle_tune-tune_body_example : handle_tune live (tune_body (pos 36) (negsuc 0)) ≡ (
    if is_tunable (pos 36) (negsuc 0)
    then (request_tune live (pos 36) (negsuc 0), plain 202)
    else (live, plain 400))
handle_tune-tune_body_example =
    handle_tune-tune_body live (pos 36) (negsuc 0) refl (omega arith) (omega arith)
