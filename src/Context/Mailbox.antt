-- ===== src/Context/Mailbox.antt =====
-- The mailbox of src/Context.h, under any sequence of requests before it is drained.
use open_prlx.Prelude.{
  ◌≡◌, refl, ◌∙◌, sym, ap, true, false, Bool, some, none, Option, ℤ, if◌then◌else◌, List, [], ◌∷◌,
  if_true, if_false, Bool-cases, inl, inr,
}
use open_prlx.Wire.{Bytes}
use open_prlx.Context.{
  Context, request_tune, take_tune, request_key, take_key, request_start, request_stop,
}

-- What the control server stages.
pub data Event : Type 0 where
  start : Event
  stop : Event
  tune : ℤ → ℤ → Event
  key : Bytes → Event

abbrev pub stage : Context → List Event → Context
stage ctx [] = ctx
stage ctx (start ∷ es) = stage (request_start ctx) es
stage ctx (stop ∷ es) = stage (request_stop ctx) es
stage ctx (tune c w ∷ es) = stage (request_tune ctx c w) es
stage ctx (key k ∷ es) = stage (request_key ctx k) es

-- The last tune and the last key among the events, or what was there before.
abbrev pub last_tune : Option (ℤ × ℤ) → List Event → Option (ℤ × ℤ)
last_tune o [] = o
last_tune o (start ∷ es) = last_tune o es
last_tune o (stop ∷ es) = last_tune o es
last_tune o (tune c w ∷ es) = last_tune (some (c, w)) es
last_tune o (key k ∷ es) = last_tune o es

abbrev pub last_key : Option Bytes → List Event → Option Bytes
last_key o [] = o
last_key o (start ∷ es) = last_key o es
last_key o (stop ∷ es) = last_key o es
last_key o (tune c w ∷ es) = last_key o es
last_key o (key k ∷ es) = last_key (some k) es

abbrev pending_tune : Context → Option (ℤ × ℤ)
pending_tune ctx =
    if ctx.reqs.tune_pending then some (ctx.reqs.pending_channel, ctx.reqs.pending_width) else none

abbrev pending_key : Context → Option Bytes
pending_key ctx = if ctx.reqs.key_pending then some ctx.reqs.pending_key else none

second-if {ℓ} :
    {A B : Type ℓ} (b : Bool) (x y : A) (v w : B)
    → (if◌then◌else◌ {A = A × B} b (x, v) (y, w)).1 ≡ (if b then v else w)
second-if true x y v w = refl
second-if false x y v w = refl

take_tune-pending : (ctx : Context) → (take_tune ctx).1 ≡ pending_tune ctx
unfolding take_tune
take_tune-pending ctx = second-if ctx.reqs.tune_pending _ ctx _ none

take_key-pending : (ctx : Context) → (take_key ctx).1 ≡ pending_key ctx
unfolding take_key
take_key-pending ctx = second-if ctx.reqs.key_pending _ ctx _ none

stage-tune :
    (ctx : Context) (es : List Event)
    → pending_tune (stage ctx es) ≡ last_tune (pending_tune ctx) es
unfolding request_tune request_key request_start request_stop
stage-tune ctx [] = refl
stage-tune ctx (start ∷ es) = stage-tune (request_start ctx) es
stage-tune ctx (stop ∷ es) = stage-tune (request_stop ctx) es
stage-tune ctx (tune c w ∷ es) = stage-tune (request_tune ctx c w) es
stage-tune ctx (key k ∷ es) = stage-tune (request_key ctx k) es

stage-key :
    (ctx : Context) (es : List Event) → pending_key (stage ctx es) ≡ last_key (pending_key ctx) es
unfolding request_tune request_key request_start request_stop
stage-key ctx [] = refl
stage-key ctx (start ∷ es) = stage-key (request_start ctx) es
stage-key ctx (stop ∷ es) = stage-key (request_stop ctx) es
stage-key ctx (tune c w ∷ es) = stage-key (request_tune ctx c w) es
stage-key ctx (key k ∷ es) = stage-key (request_key ctx k) es

-- Taking empties the place, and a key leaves zeroes behind.
taken_tune : (ctx : Context) → pending_tune (take_tune ctx).0 ≡ none
unfolding take_tune
taken_tune ctx = elim (Bool-cases ctx.reqs.tune_pending) [
  | inl some_tune ↦
      ap pending_tune (ap (λ (r : Context × Option (ℤ × ℤ)). r.0) (if_true _ _ some_tune))
  | inr no_tune ↦
      ap pending_tune (ap (λ (r : Context × Option (ℤ × ℤ)). r.0) (if_false _ _ no_tune))
      ∙ if_false _ _ no_tune
]

taken_key : (ctx : Context) → pending_key (take_key ctx).0 ≡ none
unfolding take_key
taken_key ctx = elim (Bool-cases ctx.reqs.key_pending) [
  | inl some_key ↦ ap pending_key (ap (λ (r : Context × Option Bytes). r.0) (if_true _ _ some_key))
  | inr no_key ↦
      ap pending_key (ap (λ (r : Context × Option Bytes). r.0) (if_false _ _ no_key))
      ∙ if_false _ _ no_key
]

-- After any sequence of requests to start, to stop, to tune and for a key, the capture thread takes
-- the last tune and the last key of the sequence, or, where it has none, what was staged before it;
-- and a second take gives nothing.
pub stage-take :
    (ctx : Context) (es : List Event)
    → ((take_tune (stage ctx es)).1 ≡ last_tune (take_tune ctx).1 es)
      × ((take_key (stage ctx es)).1 ≡ last_key (take_key ctx).1 es)
      × ((take_tune (take_tune (stage ctx es)).0).1 ≡ none)
      × ((take_key (take_key (stage ctx es)).0).1 ≡ none)
stage-take ctx es = (
  take_tune-pending (stage ctx es)
      ∙ stage-tune ctx es
      ∙ ap (λ o. last_tune o es) (sym (take_tune-pending ctx)),
  take_key-pending (stage ctx es)
      ∙ stage-key ctx es
      ∙ ap (λ o. last_key o es) (sym (take_key-pending ctx)),
  take_tune-pending (take_tune (stage ctx es)).0 ∙ taken_tune (stage ctx es),
  take_key-pending (take_key (stage ctx es)).0 ∙ taken_key (stage ctx es),
)
