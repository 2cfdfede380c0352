-- ===== src/Supervisor/Tests.antt =====
-- A daemon at its start, and one that has lost the race.
use open_prlx.Prelude.{◌≡◌, refl, Bool, true, false, [], ◌∷◌, replicate, negsuc, pos}
use open_prlx.Context.{Context, SessionState, auto, idle, streaming, stopping, no_sets, take_start}
use open_prlx.Supervisor.{
  supervise_start, begin_start, Daemon, absent, looping, ended, ready, reap, opens, Steps, here,
  then_step, reaps, takes_start, resets, sets_streaming, makes_thread, take_start_request,
  reset_session, set_streaming, make_thread, device_up,
}
use open_prlx.Supervisor.Life.{IsAtWork}
use open_prlx.Supervisor.Running.{Steps-runs}
use open_prlx.Supervisor.Stuck.{IsStuck, live, live-IsStuck, Steps-stopping}

-- With an adapter named, and a start staged.
abbrev at_state : SessionState → Bool → Context
at_state state finished = record {
  out_port = pos 5600;
  codec_hint = auto;
  codec = auto;
  wifi_frame_count = 0;
  wfb_frame_count = 0;
  rtp_pkt_count = 0;
  rtp_payload_type = negsuc 0;
  ssrc = 0;
  described = false;
  sdp = no_sets;
  have_param_sets = false;
  capture_finished = finished;
  state = state;
  should_stop = false;
  last_error = [];
  session_cfg = record { vidpid = 48 ∷ []; channel = pos 161; width = pos 0; key = [] };
  reqs = record {
    start_pending = true;
    stop_pending = false;
    tune_pending = false;
    pending_channel = pos 0;
    pending_width = negsuc 0;
    key_pending = false;
    pending_key = replicate 64 0;
  };
}

abbrev fresh : Daemon
fresh = record { ctx = at_state idle false; thread = absent; phase = ready }

abbrev stuck : Daemon
stuck = record { ctx = at_state stopping true; thread = ended; phase = ready }

stuck-IsStuck : IsStuck stuck
stuck-IsStuck = record { state = refl; finished = refl; thread = refl; phase = tt }

abbrev opened : Daemon
opened = set_streaming opens (reset_session (take_start_request fresh))

abbrev started : Daemon
started = record (make_thread opened) { thread = looping }

opened-Steps : Steps fresh opened
unfolding take_start_request take_start supervise_start begin_start reset_session
opened-Steps =
    then_step (then_step (then_step here (takes_start refl)) (resets refl))
      (sets_streaming opens refl)

start-Steps : Steps fresh started
unfolding set_streaming make_thread
start-Steps = then_step (then_step opened-Steps (makes_thread refl)) (device_up refl)

started-streaming : started.ctx.state ≡ streaming
unfolding make_thread set_streaming
started-streaming = refl

Steps-runs_example :
    IsAtWork started.thread started.phase
    × (started.ctx.should_stop ≡ false)
    × (started.ctx.capture_finished ≡ false)
Steps-runs_example = Steps-runs fresh started (refl, refl, refl, refl) start-Steps started-streaming

live-IsStuck_example :
    (e : Daemon) × Steps (live (at_state idle false)) e × IsStuck e × (e.phase ≡ ready)
live-IsStuck_example = live-IsStuck (at_state idle false) []

Steps-stopping_example :
    ((reap stuck).ctx.state ≡ stopping)
    × ((reap stuck).ctx.capture_finished ≡ true)
    × ((reap stuck).thread ≡ ended)
Steps-stopping_example =
    Steps-stopping stuck (reap stuck) stuck-IsStuck (then_step here (reaps refl))
