-- ===== src/Supervisor/Stuck.antt =====
-- The race between `Stop` and the end of the capture thread: `Stop` reads the state, the thread ends
-- the session, and `Stop` writes Stopping over it.
use open_prlx.Prelude.{
  ◌==◌, ◌&&◌, ◌||◌, ◌≡◌, refl, sym, ◌∙◌, subst, if◌then◌else◌, if_true, Bool, true, false, [],
  length,
}
use open_prlx.Wire.{Bytes}
use open_prlx.Context.{
  Context, SessionState, idle, starting, streaming, error, stopping, set_error, take_start,
  take_stop, request_start,
}
use open_prlx.ControlServer.{is_busy}
use open_prlx.ControlServer.Routes.{handle}
use open_prlx.ControlServer.Answers.{SameLife}
use open_prlx.ControlServer.Effects.{handle-Answered}
use open_prlx.Supervisor.{
  absent, looping, thrown, ended, Phase, ready, stop_loaded, stop_stored, stop_flagged, resetting,
  opening, spawning, Daemon, is_over, reap, load_stop, stopped_state, store_state, set_stop,
  clear_described, begin_start, supervise_start, take_start_request, over_state, catch, write_over,
  write_finished, Step, asks, reaps, loads_stop, stores_state, sets_stop, clears_described,
  takes_start, resets, sets_streaming, makes_thread, device_up, device_throws, reseed_fails,
  loop_throws, catches, leaves_loop, writes_over, finishes, Steps, here, then_step,
}

-- The supervisor is between two actions, or in a `Stop` that has read the state Stopping if it has
-- not written yet.
abbrev pub IsStuckPhase : Phase → Type 0
IsStuckPhase ready = Unit
IsStuckPhase (stop_loaded s) = s ≡ stopping
IsStuckPhase stop_stored = Unit
IsStuckPhase stop_flagged = Unit
IsStuckPhase resetting = ⊥
IsStuckPhase opening = ⊥
IsStuckPhase spawning = ⊥

-- The thread has ended and is not joined, and the state is Stopping.
pub record IsStuck (d : Daemon) : Type 0 where
  pub state : d.ctx.state ≡ stopping
  pub finished : d.ctx.capture_finished ≡ true
  pub thread : d.thread ≡ ended
  pub phase : IsStuckPhase d.phase

asks-IsStuck :
    (d : Daemon) (ctx : Context) → SameLife d.ctx ctx → IsStuck d → IsStuck (record d { ctx = ctx })
asks-IsStuck d ctx (state, stop, finished) h = record {
  state = state ∙ h.state;
  finished = finished ∙ h.finished;
  thread = h.thread;
  phase = h.phase;
}

IsStuck-if :
    (b : Bool) (x y : Daemon)
    → (b ≡ true → IsStuck x)
    → (b ≡ false → IsStuck y)
    → IsStuck (if b then x else y)
IsStuck-if true x y f g = f refl
IsStuck-if false x y f g = g refl

no_reap : (b : Bool) (s : SessionState) → s ≡ stopping → (b && is_over s) ≡ true → ⊥
unfolding is_over
no_reap true stopping e q = cc q
no_reap true idle e q = cc e
no_reap true error e q = cc e
no_reap true starting e q = cc e
no_reap true streaming e q = cc e
no_reap false s e q = cc q

busy_stopping : (s : SessionState) (b : Bool) → s ≡ stopping → (is_busy s || b) ≡ true
busy_stopping stopping b e = refl
busy_stopping idle b e = absurd (cc e)
busy_stopping error b e = absurd (cc e)
busy_stopping starting b e = absurd (cc e)
busy_stopping streaming b e = absurd (cc e)

load_stop-IsStuck : (d : Daemon) → IsStuck d → IsStuck (load_stop d)
unfolding load_stop take_stop
load_stop-IsStuck d h =
    IsStuck-if d.ctx.reqs.stop_pending
      (record d { ctx = (take_stop d.ctx).0; phase = stop_loaded d.ctx.state })
      (record d { ctx = (take_stop d.ctx).0 })
      (λ _. record { state = h.state; finished = h.finished; thread = h.thread; phase = h.state })
      (λ _. record { state = h.state; finished = h.finished; thread = h.thread; phase = h.phase })

stays_stopping : (s now : SessionState) → now ≡ stopping → stopped_state s now ≡ stopping
unfolding stopped_state
stays_stopping idle now e = e
stays_stopping error now e = e
stays_stopping stopping now e = e
stays_stopping starting now e = refl
stays_stopping streaming now e = refl

store_state-IsStuck : (s : SessionState) (d : Daemon) → IsStuck d → IsStuck (store_state s d)
unfolding store_state
store_state-IsStuck s d h = record {
  state = stays_stopping s d.ctx.state h.state;
  finished = h.finished;
  thread = h.thread;
  phase = tt;
}

take_start_request-IsStuck : (d : Daemon) → IsStuck d → IsStuck (take_start_request d)
unfolding take_start_request take_start supervise_start request_start
take_start_request-IsStuck d h =
    let taken = record d { ctx = (take_start d.ctx).0 } in
    IsStuck-if d.ctx.reqs.start_pending (supervise_start taken) taken
      (λ _.
        subst IsStuck
          (sym (
            if_true (record taken { ctx = request_start taken.ctx })
              (if length taken.ctx.session_cfg.vidpid == 0
                then record taken { ctx = set_error taken.ctx [] }
                else begin_start taken)
              (busy_stopping d.ctx.state d.ctx.capture_finished h.state)))
          (record { state = h.state; finished = h.finished; thread = h.thread; phase = h.phase }))
      (λ _. record { state = h.state; finished = h.finished; thread = h.thread; phase = h.phase })

Step-IsStuck : {d e : Daemon} → Step d e → IsStuck d → IsStuck e
unfolding reap set_stop clear_described
Step-IsStuck {d} (asks vault server req) h =
    asks-IsStuck d (handle vault server d.ctx req).1.0 (handle-Answered vault server d.ctx req).life
      h
Step-IsStuck {d} (reaps r) h =
    IsStuck-if (d.ctx.capture_finished && is_over d.ctx.state)
      (record d { ctx = record (d.ctx) { capture_finished = false }; thread = absent }) d
      (λ e. absurd (no_reap d.ctx.capture_finished d.ctx.state h.state e)) (λ _. h)
Step-IsStuck {d} (loads_stop r) h = load_stop-IsStuck d h
Step-IsStuck {d} (stores_state s p) h = store_state-IsStuck s d h
Step-IsStuck {d} (sets_stop p) h = record {
  state = h.state;
  finished = h.finished;
  thread = h.thread;
  phase = tt;
}
Step-IsStuck {d} (clears_described p) h = record {
  state = h.state;
  finished = h.finished;
  thread = h.thread;
  phase = tt;
}
Step-IsStuck {d} (takes_start r) h = take_start_request-IsStuck d h
Step-IsStuck {d} (resets p) h = absurd (subst IsStuckPhase p h.phase)
Step-IsStuck {d} (sets_streaming o p) h = absurd (subst IsStuckPhase p h.phase)
Step-IsStuck {d} (makes_thread p) h = absurd (subst IsStuckPhase p h.phase)
Step-IsStuck {d} (device_up t) h = absurd (cc (t, h.thread))
Step-IsStuck {d} (device_throws msg t) h = absurd (cc (t, h.thread))
Step-IsStuck {d} (reseed_fails msg t) h = absurd (cc (t, h.thread))
Step-IsStuck {d} (loop_throws msg t) h = absurd (cc (t, h.thread))
Step-IsStuck {d} (catches msg t) h = absurd (cc (t, h.thread))
Step-IsStuck {d} (leaves_loop t stop) h = absurd (cc (t, h.thread))
Step-IsStuck {d} (writes_over t) h = absurd (cc (t, h.thread))
Step-IsStuck {d} (finishes t) h = absurd (cc (t, h.thread))

Steps-IsStuck : {d e : Daemon} → Steps d e → IsStuck d → IsStuck e
Steps-IsStuck here h = h
Steps-IsStuck (then_step steps step) h = Step-IsStuck step (Steps-IsStuck steps h)

-- Once the thread has ended, and is not joined, with the state at Stopping, no steps of any thread
-- change this: the state is Stopping for good, so that every request to start is refused.
pub Steps-stopping :
    (d e : Daemon)
    → IsStuck d
    → Steps d e
    → (e.ctx.state ≡ stopping) × (e.ctx.capture_finished ≡ true) × (e.thread ≡ ended)
Steps-stopping d e stuck steps =
    let h = Steps-IsStuck steps stuck in (h.state, h.finished, h.thread)

-- A session that runs, with a request to stop it in the mailbox.
abbrev pub live : Context → Daemon
live ctx = record {
  ctx = record ctx { state = streaming; reqs = record (ctx.reqs) { stop_pending = true } };
  thread = looping;
  phase = ready;
}

-- In every context: from a session that is Streaming, with a request to stop staged, steps of the
-- threads lead to a state where the capture thread has ended, is not joined, the state is Stopping,
-- and `Stop` has returned. The error of the thread may have any message.
pub live-IsStuck :
    (ctx : Context) (msg : Bytes)
    → (e : Daemon) × Steps (live ctx) e × IsStuck e × (e.phase ≡ ready)
unfolding load_stop take_stop set_error catch write_over over_state write_finished store_state
    stopped_state set_stop clear_described
live-IsStuck ctx msg =
    let loaded = load_stop (live ctx) in
    let left = record loaded { thread = thrown msg } in
    let finished = write_finished (write_over (catch msg left)) in
    (
      clear_described (set_stop (store_state streaming finished)),
      then_step
          (then_step
            (then_step
              (then_step
                (then_step
                  (then_step (then_step (then_step here (loads_stop refl)) (loop_throws msg refl))
                    (catches msg refl))
                  (writes_over refl))
                (finishes refl))
              (stores_state streaming refl))
            (sets_stop refl))
          (clears_described refl),
      record { state = refl; finished = refl; thread = refl; phase = tt },
      refl,
    )
