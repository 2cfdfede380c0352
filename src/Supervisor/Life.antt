-- ===== src/Supervisor/Life.antt =====
-- What the steps of the threads keep of the session's state, the thread and the supervisor's place.
use open_prlx.Prelude.{
  ◌⊎◌, inl, inr, subst, ◌≡◌, ◌≢◌, refl, sym, ◌∙◌, if◌then◌else◌, Bool, true, false,
}
use open_prlx.Context.{Context, SessionState, idle, starting, streaming, error, stopping}
use open_prlx.ControlServer.Answers.{SameLife}
use open_prlx.Supervisor.{
  Thread, absent, bringing_up, looping, thrown, unwinding, closing, ended, Phase, ready,
  stop_loaded, stop_stored, stop_flagged, resetting, opening, spawning, Daemon, over_state,
}

-- The thread is about to be made, brings the device up, is in its loop, or has thrown and writes the
-- error next: it is not past the end of the session.
abbrev pub IsAtWork : Thread → Phase → Type 0
IsAtWork absent phase = phase ≡ spawning
IsAtWork bringing_up phase = Unit
IsAtWork looping phase = Unit
IsAtWork (thrown msg) phase = Unit
IsAtWork unwinding phase = ⊥
IsAtWork closing phase = ⊥
IsAtWork ended phase = ⊥

-- How the members hang together.
pub record Life (state : SessionState) (stop finished : Bool) (thread : Thread) (phase : Phase)
    : Type 0 where
  pub runs : state ≡ streaming → IsAtWork thread phase × (stop ≡ false)
  pub begins : state ≡ starting → (phase ≡ resetting) ⊎ (phase ≡ opening)
  pub unmade : (phase ≡ resetting) ⊎ (phase ≡ opening) ⊎ (phase ≡ spawning) → thread ≡ absent
  pub going : (phase ≡ opening) ⊎ (phase ≡ spawning) → stop ≡ false
  pub loaded : (s : SessionState) → phase ≡ stop_loaded s → state ≡ streaming → s ≡ streaming
  pub halted : phase ≡ stop_stored → state ≢ streaming
  pub joined : finished ≡ true → thread ≡ ended

abbrev pub IsLive : Daemon → Type 0
IsLive d = Life d.ctx.state d.ctx.should_stop d.ctx.capture_finished d.thread d.phase

-- A state that is neither Streaming nor Starting asks nothing of the thread.
pub over-Life :
    {state : SessionState} {stop finished : Bool} {thread : Thread} {phase : Phase}
    → state ≢ streaming
    → state ≢ starting
    → ((phase ≡ resetting) ⊎ (phase ≡ opening) ⊎ (phase ≡ spawning) → thread ≡ absent)
    → ((phase ≡ opening) ⊎ (phase ≡ spawning) → stop ≡ false)
    → (finished ≡ true → thread ≡ ended)
    → Life state stop finished thread phase
over-Life not_streaming not_starting unmade going joined = record {
  runs = λ e. absurd (not_streaming e);
  begins = λ e. absurd (not_starting e);
  unmade = unmade;
  going = going;
  loaded = λ s _ e. absurd (not_streaming e);
  halted = λ _. not_streaming;
  joined = joined;
}

-- Outside of `Start` nothing is asked of the phase.
abbrev pub IsOutside : Phase → Type 0
IsOutside ready = Unit
IsOutside (stop_loaded s) = Unit
IsOutside stop_stored = Unit
IsOutside stop_flagged = Unit
IsOutside resetting = ⊥
IsOutside opening = ⊥
IsOutside spawning = ⊥

pub outside_unmade :
    {A : Type 0} (p : Phase) → IsOutside p → (p ≡ resetting) ⊎ (p ≡ opening) ⊎ (p ≡ spawning) → A
outside_unmade p h (inl e) = absurd (subst IsOutside e h)
outside_unmade p h (inr (inl e)) = absurd (subst IsOutside e h)
outside_unmade p h (inr (inr e)) = absurd (subst IsOutside e h)

-- At work in a phase outside of `Start` is at work in each.
pub rephase : (t : Thread) (p q : Phase) → IsOutside p → IsAtWork t p → IsAtWork t q
rephase absent p q h w = absurd (subst IsOutside w h)
rephase bringing_up p q h w = tt
rephase looping p q h w = tt
rephase (thrown msg) p q h w = tt
rephase unwinding p q h w = absurd w
rephase closing p q h w = absurd w
rephase ended p q h w = absurd w

-- A state that is over, in a phase outside of `Start`.
pub outside-Life :
    {state : SessionState} {stop finished : Bool} {thread : Thread} (phase : Phase)
    → IsOutside phase
    → state ≢ streaming
    → state ≢ starting
    → (finished ≡ true → thread ≡ ended)
    → Life state stop finished thread phase
outside-Life phase h not_streaming not_starting joined =
    over-Life not_streaming not_starting (outside_unmade phase h)
      (λ e. outside_unmade phase h (inr e)) joined

pub not_starting_outside : (d : Daemon) → IsOutside d.phase → IsLive d → d.ctx.state ≢ starting
not_starting_outside d h l e = elim (l.begins e) [
  | inl p ↦ absurd (subst IsOutside p h)
  | inr p ↦ absurd (subst IsOutside p h)
]

pub asks-IsLive :
    (d : Daemon) (ctx : Context) → SameLife d.ctx ctx → IsLive d → IsLive (record d { ctx = ctx })
asks-IsLive d ctx (state, stop, finished) h = record {
  runs = λ e. let (t, u) = h.runs (sym state ∙ e) in (t, stop ∙ u);
  begins = λ e. h.begins (sym state ∙ e);
  unmade = h.unmade;
  going = λ e. stop ∙ h.going e;
  loaded = λ s p e. h.loaded s p (sym state ∙ e);
  halted = λ p e. h.halted p (sym state ∙ e);
  joined = λ e. h.joined (sym finished ∙ e);
}

pub IsLive-if :
    (b : Bool) (x y : Daemon)
    → (b ≡ true → IsLive x)
    → (b ≡ false → IsLive y)
    → IsLive (if b then x else y)
IsLive-if true x y f g = f refl
IsLive-if false x y f g = g refl

-- A thread that is there, and goes on within its work.
pub moves-IsLive :
    (d : Daemon) (t : Thread)
    → d.thread ≢ absent
    → d.thread ≢ ended
    → (d.ctx.state ≡ streaming → IsAtWork t d.phase)
    → IsLive d
    → IsLive (record d { thread = t })
moves-IsLive d t there more work h = record {
  runs = λ e. (work e, (h.runs e).1);
  begins = h.begins;
  unmade = λ e. absurd (there (h.unmade e));
  going = h.going;
  loaded = h.loaded;
  halted = h.halted;
  joined = λ f. absurd (more (h.joined f));
}

-- A thread that is there, and ends the session.
pub ends-IsLive :
    {state : SessionState} (d : Daemon) (t : Thread)
    → d.thread ≢ absent
    → d.thread ≢ ended
    → state ≢ streaming
    → state ≢ starting
    → IsLive d
    → Life state d.ctx.should_stop d.ctx.capture_finished t d.phase
ends-IsLive d t there more not_streaming not_starting h =
    over-Life not_streaming not_starting (λ e. absurd (there (h.unmade e))) h.going
      (λ f. absurd (more (h.joined f)))

pub no_over : (s : SessionState) → (over_state s ≢ streaming) × (over_state s ≢ starting)
unfolding over_state
no_over idle = ((λ h. cc h), λ h. cc h)
no_over error = ((λ h. cc h), λ h. cc h)
no_over starting = ((λ h. cc h), λ h. cc h)
no_over streaming = ((λ h. cc h), λ h. cc h)
no_over stopping = ((λ h. cc h), λ h. cc h)
