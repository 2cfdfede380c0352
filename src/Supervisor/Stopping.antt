-- ===== src/Supervisor/Stopping.antt =====
-- What `Stop` and `Join` of the supervisor keep of the session's state, the thread and the phase.
use open_prlx.Prelude.{inr, subst, ◌&&◌, ◌≡◌, ◌≢◌, refl, sym, ap, ◌∙◌, Bool, true, false}
use open_prlx.Context.{SessionState, idle, starting, streaming, error, stopping, take_stop}
use open_prlx.Supervisor.{
  absent, Phase, ready, stop_loaded, stop_stored, stop_flagged, resetting, opening, spawning,
  Daemon, is_over, reap, load_stop, stopped_state, store_state, set_stop, clear_described,
}
use open_prlx.Supervisor.Life.{
  IsLive, IsOutside, outside_unmade, rephase, outside-Life, not_starting_outside, IsLive-if,
}

over_states : (s : SessionState) → is_over s ≡ true → (s ≢ streaming) × (s ≢ starting)
unfolding is_over
over_states idle e = ((λ h. cc h), λ h. cc h)
over_states error e = ((λ h. cc h), λ h. cc h)
over_states starting e = absurd (cc e)
over_states streaming e = absurd (cc e)
over_states stopping e = absurd (cc e)

and_both : (a b : Bool) → (a && b) ≡ true → (a ≡ true) × (b ≡ true)
and_both true b e = (refl, e)
and_both false b e = absurd (cc e)

pub reap-IsLive : (d : Daemon) → d.phase ≡ ready → IsLive d → IsLive (reap d)
unfolding reap
reap-IsLive d r h =
    IsLive-if (d.ctx.capture_finished && is_over d.ctx.state)
      (record d { ctx = record (d.ctx) { capture_finished = false }; thread = absent }) d
      (λ e.
        let (not_streaming, not_starting) =
          over_states d.ctx.state (and_both d.ctx.capture_finished (is_over d.ctx.state) e).1 in
        outside-Life d.phase (subst IsOutside (sym r) tt) not_streaming not_starting
          (λ f. absurd (cc f)))
      (λ _. h)

pub load_stop-IsLive : (d : Daemon) → d.phase ≡ ready → IsLive d → IsLive (load_stop d)
unfolding load_stop take_stop
load_stop-IsLive d r h =
    IsLive-if d.ctx.reqs.stop_pending
      (record d { ctx = (take_stop d.ctx).0; phase = stop_loaded d.ctx.state })
      (record d { ctx = (take_stop d.ctx).0 })
      (λ _. record {
        runs = λ e.
            let (w, u) = h.runs e in (rephase d.thread d.phase (stop_loaded d.ctx.state) here w, u);
        begins = λ e. absurd (not_starting_outside d here h e);
        unmade = outside_unmade (stop_loaded d.ctx.state) tt;
        going = λ e. outside_unmade (stop_loaded d.ctx.state) tt (inr e);
        loaded = λ s p e. ap loaded_of (sym p) ∙ e;
        halted = λ p. absurd (cc p);
        joined = h.joined;
      })
      (λ _. h)
  where
    loaded_of : Phase → SessionState
    loaded_of ready = idle
    loaded_of (stop_loaded s) = s
    loaded_of stop_stored = idle
    loaded_of stop_flagged = idle
    loaded_of resetting = idle
    loaded_of opening = idle
    loaded_of spawning = idle

    here : IsOutside d.phase
    here = subst IsOutside (sym r) tt

no_streaming :
    (s now : SessionState) → (now ≡ streaming → s ≡ streaming) → stopped_state s now ≢ streaming
unfolding stopped_state
no_streaming idle now f e = cc (f e)
no_streaming starting now f e = cc e
no_streaming streaming now f e = cc e
no_streaming error now f e = cc (f e)
no_streaming stopping now f e = cc (f e)

no_starting : (s now : SessionState) → now ≢ starting → stopped_state s now ≢ starting
unfolding stopped_state
no_starting idle now f e = f e
no_starting starting now f e = cc e
no_starting streaming now f e = cc e
no_starting error now f e = f e
no_starting stopping now f e = f e

pub store_state-IsLive :
    (d : Daemon) (s : SessionState) → d.phase ≡ stop_loaded s → IsLive d → IsLive (store_state s d)
unfolding store_state
store_state-IsLive d s p h =
    outside-Life stop_stored tt (no_streaming s d.ctx.state (h.loaded s p))
      (no_starting s d.ctx.state (not_starting_outside d (subst IsOutside (sym p) tt) h)) h.joined

pub set_stop-IsLive : (d : Daemon) → d.phase ≡ stop_stored → IsLive d → IsLive (set_stop d)
unfolding set_stop
set_stop-IsLive d p h =
    outside-Life stop_flagged tt (h.halted p)
      (not_starting_outside d (subst IsOutside (sym p) tt) h) h.joined

pub clear_described-IsLive :
    (d : Daemon) → d.phase ≡ stop_flagged → IsLive d → IsLive (clear_described d)
unfolding clear_described
clear_described-IsLive d p h = record {
  runs = λ e. let (w, u) = h.runs e in (rephase d.thread d.phase ready here w, u);
  begins = λ e. absurd (not_starting_outside d here h e);
  unmade = outside_unmade ready tt;
  going = λ e. outside_unmade ready tt (inr e);
  loaded = λ s q. absurd (cc q);
  halted = λ q. absurd (cc q);
  joined = h.joined;
}
  where
    here : IsOutside d.phase
    here = subst IsOutside (sym p) tt
