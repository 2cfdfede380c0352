-- ===== src/Supervisor/Running.antt =====
-- A session that is Streaming has a capture thread that is at work, whatever the order of the threads'
-- steps.
use open_prlx.Prelude.{◌≡◌, ◌≢◌, refl, sym, subst, Bool, true, false, inl, inr}
use open_prlx.Context.{idle, starting, streaming, set_error}
use open_prlx.ControlServer.Routes.{handle}
use open_prlx.ControlServer.Effects.{handle-Answered}
use open_prlx.Supervisor.{
  Thread, absent, looping, thrown, unwinding, closing, ended, Phase, ready, Daemon, catch,
  write_over, write_finished, Step, asks, reaps, loads_stop, stores_state, sets_stop,
  clears_described, takes_start, resets, sets_streaming, makes_thread, device_up, device_throws,
  reseed_fails, loop_throws, catches, leaves_loop, writes_over, finishes, Steps, here, then_step,
}
use open_prlx.Supervisor.Life.{
  IsAtWork, IsLive, IsOutside, outside-Life, asks-IsLive, moves-IsLive, ends-IsLive, no_over,
}
use open_prlx.Supervisor.Stopping.{
  reap-IsLive, load_stop-IsLive, store_state-IsLive, set_stop-IsLive, clear_described-IsLive,
}
use open_prlx.Supervisor.Starting.{
  take_start_request-IsLive, reset_session-IsLive, set_streaming-IsLive, make_thread-IsLive,
}

-- A thread that is there is not there while `Start` goes on.
not_begun : (d : Daemon) → IsLive d → d.thread ≢ absent → d.ctx.state ≢ starting
not_begun d h there e = elim (h.begins e) [
  | inl p ↦ there (h.unmade (inl p))
  | inr p ↦ there (h.unmade (inr (inl p)))
]

-- Every step keeps this.
Step-IsLive : {d e : Daemon} → Step d e → IsLive d → IsLive e
unfolding set_error catch write_over write_finished
Step-IsLive {d} (asks vault server req) h =
    asks-IsLive d (handle vault server d.ctx req).1.0 (handle-Answered vault server d.ctx req).life
      h
Step-IsLive {d} (reaps r) h = reap-IsLive d r h
Step-IsLive {d} (loads_stop r) h = load_stop-IsLive d r h
Step-IsLive {d} (stores_state s p) h = store_state-IsLive d s p h
Step-IsLive {d} (sets_stop p) h = set_stop-IsLive d p h
Step-IsLive {d} (clears_described p) h = clear_described-IsLive d p h
Step-IsLive {d} (takes_start r) h = take_start_request-IsLive d r h
Step-IsLive {d} (resets p) h = reset_session-IsLive d p h
Step-IsLive {d} (sets_streaming o p) h = set_streaming-IsLive o d p h
Step-IsLive {d} (makes_thread p) h = make_thread-IsLive d p h
Step-IsLive {d} (device_up t) h =
    moves-IsLive d looping (λ q. cc (t, q)) (λ q. cc (t, q)) (λ _. tt) h
Step-IsLive {d} (device_throws msg t) h =
    moves-IsLive d (thrown msg) (λ q. cc (t, q)) (λ q. cc (t, q)) (λ _. tt) h
Step-IsLive {d} (reseed_fails msg t) h =
    ends-IsLive d d.thread (λ q. cc (t, q)) (λ q. cc (t, q)) (λ q. cc q) (λ q. cc q) h
Step-IsLive {d} (loop_throws msg t) h =
    moves-IsLive d (thrown msg) (λ q. cc (t, q)) (λ q. cc (t, q)) (λ _. tt) h
Step-IsLive {d} (catches msg t) h =
    ends-IsLive d unwinding (λ q. cc (t, q)) (λ q. cc (t, q)) (λ q. cc q) (λ q. cc q) h
Step-IsLive {d} (leaves_loop t stop) h =
    ends-IsLive d unwinding (λ q. cc (t, q)) (λ q. cc (t, q)) (λ q. cc (stop, (h.runs q).1))
      (not_begun d h (λ q. cc (t, q))) h
Step-IsLive {d} (writes_over t) h =
    ends-IsLive d closing (λ q. cc (t, q)) (λ q. cc (t, q)) (no_over d.ctx.state).0
      (no_over d.ctx.state).1 h
Step-IsLive {d} (finishes t) h = record {
  runs = λ e. absurd (subst (λ s. IsAtWork s d.phase) t (h.runs e).0);
  begins = h.begins;
  unmade = λ p. absurd (cc (t, h.unmade p));
  going = h.going;
  loaded = h.loaded;
  halted = h.halted;
  joined = λ _. refl;
}

Steps-IsLive : {d e : Daemon} → Steps d e → IsLive d → IsLive e
Steps-IsLive here h = h
Steps-IsLive (then_step steps step) h = Step-IsLive step (Steps-IsLive steps h)

-- At the start of the daemon nothing runs.
abbrev pub IsFresh : Daemon → Type 0
IsFresh d =
    (d.ctx.state ≡ idle)
    × (d.ctx.capture_finished ≡ false)
    × (d.thread ≡ absent)
    × (d.phase ≡ ready)

fresh-IsLive : (d : Daemon) → IsFresh d → IsLive d
fresh-IsLive d (state, finished, thread, phase) =
    outside-Life d.phase (subst IsOutside (sym phase) tt) (λ q. cc (state, q)) (λ q. cc (state, q))
      (λ f. absurd (cc (finished, f)))

not_finished :
    (finished : Bool) (t : Thread) (p : Phase)
    → IsAtWork t p
    → (finished ≡ true → t ≡ ended)
    → finished ≡ false
not_finished false t p w joined = refl
not_finished true t p w joined = absurd (subst (λ s. IsAtWork s p) (joined refl) w)

-- From a fresh daemon on, after any steps of the supervisor, the capture thread and the control
-- server in any order: where the session's state is Streaming, the capture thread is about to be made
-- by `Start`, or it brings the device up, is in its loop or is on the way from an exception to its
-- handler; it has not been told to stop, and `captureFinished` is not set.
pub Steps-runs :
    (d e : Daemon)
    → IsFresh d
    → Steps d e
    → e.ctx.state ≡ streaming
    → IsAtWork e.thread e.phase × (e.ctx.should_stop ≡ false) × (e.ctx.capture_finished ≡ false)
Steps-runs d e fresh steps streams =
    let h = Steps-IsLive steps (fresh-IsLive d fresh) in
    let (work, going) = h.runs streams in
    (work, going, not_finished e.ctx.capture_finished e.thread e.phase work h.joined)
