-- ===== src/Supervisor/Starting.antt =====
-- What `Start` keeps of the session's state, the thread and the phase.
use open_prlx.Prelude.{◌⊎◌, inl, inr, subst, ◌==◌, ◌||◌, ◌≡◌, refl, sym, if◌then◌else◌, [], length}
use open_prlx.Context.{Context, set_error, clear_tune, reset_detection, take_start, request_start}
use open_prlx.ControlServer.{is_busy}
use open_prlx.Supervisor.{
  Thread, absent, bringing_up, looping, thrown, unwinding, closing, ended, Phase, ready, resetting,
  opening, spawning, Daemon, Opening, opens, fails, begin_start, reset_session, supervise_start,
  take_start_request, set_streaming, make_thread,
}
use open_prlx.Supervisor.Life.{IsAtWork, IsLive, over-Life, outside_unmade, outside-Life, IsLive-if}

begin_start-IsLive :
    (ctx : Context) (thread : Thread) (phase : Phase)
    → phase ≡ ready
    → IsLive (record { ctx = ctx; thread = thread; phase = phase })
    → IsLive (begin_start (record { ctx = ctx; thread = thread; phase = phase }))
unfolding begin_start
begin_start-IsLive ctx absent phase r h = record {
  runs = λ e. absurd (cc e);
  begins = λ _. inl refl;
  unmade = λ _. refl;
  going = λ e. not_going e;
  loaded = λ s p e. absurd (cc p);
  halted = λ p. absurd (cc p);
  joined = h.joined;
}
  where
    not_going : {A : Type 0} → (resetting ≡ opening) ⊎ (resetting ≡ spawning) → A
    not_going (inl e) = absurd (cc e)
    not_going (inr e) = absurd (cc e)
begin_start-IsLive ctx bringing_up phase r h = h
begin_start-IsLive ctx looping phase r h = h
begin_start-IsLive ctx (thrown msg) phase r h = h
begin_start-IsLive ctx unwinding phase r h = h
begin_start-IsLive ctx closing phase r h = h
begin_start-IsLive ctx ended phase r h = h

pub reset_session-IsLive : (d : Daemon) → d.phase ≡ resetting → IsLive d → IsLive (reset_session d)
unfolding reset_session clear_tune reset_detection
reset_session-IsLive d p h = record {
  runs = λ e. absurd (cc (p, subst (λ t. IsAtWork t d.phase) (h.unmade (inl p)) (h.runs e).0));
  begins = λ _. inr refl;
  unmade = λ _. h.unmade (inl p);
  going = λ _. refl;
  loaded = λ s q. absurd (cc q);
  halted = λ q. absurd (cc q);
  joined = λ f. absurd (cc f);
}

supervise_start-IsLive : (d : Daemon) → d.phase ≡ ready → IsLive d → IsLive (supervise_start d)
unfolding supervise_start request_start set_error
supervise_start-IsLive d r h =
    IsLive-if (is_busy d.ctx.state || d.ctx.capture_finished)
      (record d { ctx = request_start d.ctx })
      (if length d.ctx.session_cfg.vidpid == 0
        then record d { ctx = set_error d.ctx [] }
        else begin_start d)
      (λ _. h)
      λ e.
        IsLive-if (length d.ctx.session_cfg.vidpid == 0) (record d { ctx = set_error d.ctx [] })
          (begin_start d) (λ _. over-Life (λ q. cc q) (λ q. cc q) h.unmade h.going h.joined)
          λ _. begin_start-IsLive d.ctx d.thread d.phase r h

pub take_start_request-IsLive :
    (d : Daemon) → d.phase ≡ ready → IsLive d → IsLive (take_start_request d)
unfolding take_start_request take_start
take_start_request-IsLive d r h =
    let taken = record d { ctx = (take_start d.ctx).0 } in
    IsLive-if d.ctx.reqs.start_pending (supervise_start taken) taken
      (λ _. supervise_start-IsLive taken r h) (λ _. h)

pub set_streaming-IsLive :
    (o : Opening) (d : Daemon) → d.phase ≡ opening → IsLive d → IsLive (set_streaming o d)
unfolding set_streaming set_error
set_streaming-IsLive opens d p h =
    let none_yet = h.unmade (inr (inl p)) in
    record {
      runs = λ _. (subst (λ t. IsAtWork t spawning) (sym none_yet) refl, h.going (inl p));
      begins = λ e. absurd (cc e);
      unmade = λ _. none_yet;
      going = λ _. h.going (inl p);
      loaded = λ s q. absurd (cc q);
      halted = λ q. absurd (cc q);
      joined = h.joined;
    }
set_streaming-IsLive (fails msg) d p h = outside-Life ready tt (λ q. cc q) (λ q. cc q) h.joined

pub make_thread-IsLive : (d : Daemon) → d.phase ≡ spawning → IsLive d → IsLive (make_thread d)
unfolding make_thread
make_thread-IsLive d p h = record {
  runs = λ _. (tt, h.going (inr p));
  begins = λ e. elim (h.begins e) [ inl q ↦ absurd (cc (p, q)) | inr q ↦ absurd (cc (p, q)) ];
  unmade = outside_unmade ready tt;
  going = λ e. outside_unmade ready tt (inr e);
  loaded = λ s q. absurd (cc q);
  halted = λ q. absurd (cc q);
  joined = λ f. absurd (cc (h.joined f, h.unmade (inr (inr p))));
}
