-- ===== src/Supervisor.antt =====
-- The life of a capture session: the loop of src/openprlx_main.cpp, `Start`, `Stop` and `Join` of
-- src/wifi/WFBReceiver.cpp, and the end of the capture thread that `Start` makes. Three threads take
-- steps in any order: the supervisor, the capture thread and the control server. The steps of the
-- capture thread on packets and on staged tunes, which write no member that is read here, are left out.
-- A write of an atomic member is a step of its own where another thread may see it.
pub mod Life
pub mod Stopping
pub mod Starting
pub mod Running
pub mod Stuck
mod Tests
use open_prlx.Prelude.{
  ℕ, ◌==◌, ◌&&◌, ◌||◌, ◌≡◌, if◌then◌else◌, Bool, true, false, Option, none, some, List, [], length,
}
use open_prlx.Wire.{Bytes}
use open_prlx.Context.{
  Context, SessionState, idle, starting, streaming, error, stopping, set_error, reset_detection,
  clear_tune, take_start, take_stop, request_start,
}
use open_prlx.ControlServer.{Vault, Server, Request, is_busy}
use open_prlx.ControlServer.Routes.{handle}

-- Where the capture thread is: there is none; bringing the device up; in its loop; past an exception
-- that has not been caught yet; past its loop or its handler; past its write of the session's state;
-- at its end, not joined.
pub data Thread : Type 0 where
  absent : Thread
  bringing_up : Thread
  looping : Thread
  thrown : Bytes → Thread
  unwinding : Thread
  closing : Thread
  ended : Thread

-- Where the supervisor is: between two of its actions; in `Stop`, with the state that it has read,
-- past its write of the state, or past its write of `shouldStop`; in `Start`, past its write of the
-- state Starting, past its reset of the session, or past its write of the state Streaming.
pub data Phase : Type 0 where
  ready : Phase
  stop_loaded : SessionState → Phase
  stop_stored : Phase
  stop_flagged : Phase
  resetting : Phase
  opening : Phase
  spawning : Phase

pub record Daemon : Type 0 where
  pub ctx : Context
  pub thread : Thread
  pub phase : Phase

-- What the libraries and the key file make of `Start`: the adapter opens and the aggregator is made,
-- or there is an error.
pub data Opening : Type 0 where
  opens : Opening
  fails : Bytes → Opening

unfoldable pub is_over : SessionState → Bool
is_over idle = true
is_over error = true
is_over starting = false
is_over streaming = false
is_over stopping = false

-- (a) of the loop: `Join` returns when the thread has ended, and leaves none.
unfoldable pub reap : Daemon → Daemon
reap d =
    if d.ctx.capture_finished && is_over d.ctx.state
    then record d { ctx = record (d.ctx) { capture_finished = false }; thread = absent }
    else d

-- (b) of the loop, up to the read of the state in `Stop`.
unfoldable pub load_stop : Daemon → Daemon
load_stop d =
    let (ctx, pending) = take_stop d.ctx in
    if pending
    then record d { ctx = ctx; phase = stop_loaded ctx.state }
    else record d { ctx = ctx }

unfoldable pub stopped_state : SessionState → SessionState → SessionState
stopped_state streaming now = stopping
stopped_state starting now = stopping
stopped_state idle now = now
stopped_state error now = now
stopped_state stopping now = now

-- The three writes of `Stop`, which has read `loaded`.
unfoldable pub store_state : SessionState → Daemon → Daemon
store_state loaded d = record d {
  ctx = record (d.ctx) { state = stopped_state loaded d.ctx.state };
  phase = stop_stored;
}

unfoldable pub set_stop : Daemon → Daemon
set_stop d = record d { ctx = record (d.ctx) { should_stop = true }; phase = stop_flagged }

unfoldable pub clear_described : Daemon → Daemon
clear_described d = record d { ctx = record (d.ctx) { described = false }; phase = ready }

-- `Start` up to its first write; a thread that is not joined makes it return false.
unfoldable pub begin_start : Daemon → Daemon
begin_start d = elim d.thread [
  | absent ↦ record d { ctx = record (d.ctx) { state = starting }; phase = resetting }
  | bringing_up ↦ d
  | looping ↦ d
  | thrown msg ↦ d
  | unwinding ↦ d
  | closing ↦ d
  | ended ↦ d
]

-- The writes of `Start` up to the opening of the adapter.
unfoldable pub reset_session : Daemon → Daemon
reset_session d = record d {
  ctx = clear_tune (record (reset_detection d.ctx) {
    wifi_frame_count = 0;
    wfb_frame_count = 0;
    rtp_pkt_count = 0;
    capture_finished = false;
    should_stop = false;
  });
  phase = opening;
}

-- The message of the error when no adapter is named is left out.
unfoldable pub supervise_start : Daemon → Daemon
supervise_start d =
    if is_busy d.ctx.state || d.ctx.capture_finished
    then record d { ctx = request_start d.ctx }
    else if length d.ctx.session_cfg.vidpid == 0
    then record d { ctx = set_error d.ctx [] }
    else begin_start d

-- (c) of the loop.
unfoldable pub take_start_request : Daemon → Daemon
take_start_request d =
    let (ctx, pending) = take_start d.ctx in
    let taken = record d { ctx = ctx } in if pending then supervise_start taken else taken

-- The state is written before the thread is made.
unfoldable pub set_streaming : Opening → Daemon → Daemon
set_streaming opens d = record d { ctx = record (d.ctx) { state = streaming }; phase = spawning }
set_streaming (fails msg) d = record d { ctx = set_error d.ctx msg; phase = ready }

unfoldable pub make_thread : Daemon → Daemon
make_thread d = record d { thread = bringing_up; phase = ready }

unfoldable pub over_state : SessionState → SessionState
over_state error = error
over_state idle = idle
over_state starting = idle
over_state streaming = idle
over_state stopping = idle

-- The handler of an exception in the capture thread.
unfoldable pub catch : Bytes → Daemon → Daemon
catch msg d = record d { ctx = set_error d.ctx msg; thread = unwinding }

-- The last two writes of the capture thread.
unfoldable pub write_over : Daemon → Daemon
write_over d = record d {
  ctx = record (d.ctx) { state = over_state d.ctx.state };
  thread = closing;
}

unfoldable pub write_finished : Daemon → Daemon
write_finished d = record d { ctx = record (d.ctx) { capture_finished = true }; thread = ended }

-- One step of one of the threads.
pub data Step : Daemon → Daemon → Type 0 where
  asks :
      {d : Daemon} (vault : Vault) (server : Server) (req : Option Request)
      → Step d (record d { ctx = (handle vault server d.ctx req).1.0 })
  reaps : {d : Daemon} → d.phase ≡ ready → Step d (reap d)
  loads_stop : {d : Daemon} → d.phase ≡ ready → Step d (load_stop d)
  stores_state :
      {d : Daemon} (s : SessionState) → d.phase ≡ stop_loaded s → Step d (store_state s d)
  sets_stop : {d : Daemon} → d.phase ≡ stop_stored → Step d (set_stop d)
  clears_described : {d : Daemon} → d.phase ≡ stop_flagged → Step d (clear_described d)
  takes_start : {d : Daemon} → d.phase ≡ ready → Step d (take_start_request d)
  resets : {d : Daemon} → d.phase ≡ resetting → Step d (reset_session d)
  sets_streaming : {d : Daemon} (o : Opening) → d.phase ≡ opening → Step d (set_streaming o d)
  makes_thread : {d : Daemon} → d.phase ≡ spawning → Step d (make_thread d)
  device_up : {d : Daemon} → d.thread ≡ bringing_up → Step d (record d { thread = looping })
  device_throws :
      {d : Daemon} (msg : Bytes)
      → d.thread ≡ bringing_up
      → Step d (record d { thread = thrown msg })
  reseed_fails :
      {d : Daemon} (msg : Bytes)
      → d.thread ≡ looping
      → Step d (record d { ctx = set_error d.ctx msg })
  loop_throws :
      {d : Daemon} (msg : Bytes) → d.thread ≡ looping → Step d (record d { thread = thrown msg })
  catches : {d : Daemon} (msg : Bytes) → d.thread ≡ thrown msg → Step d (catch msg d)
  leaves_loop :
      {d : Daemon}
      → d.thread ≡ looping
      → d.ctx.should_stop ≡ true
      → Step d (record d { thread = unwinding })
  writes_over : {d : Daemon} → d.thread ≡ unwinding → Step d (write_over d)
  finishes : {d : Daemon} → d.thread ≡ closing → Step d (write_finished d)

-- The states that the steps lead to from `d`.
pub data Steps (d : Daemon) : Daemon → Type 0 where
  here : Steps d d
  then_step : {e f : Daemon} → Steps d e → Step e f → Steps d f
