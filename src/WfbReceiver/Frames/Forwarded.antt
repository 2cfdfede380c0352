-- ===== src/WfbReceiver/Frames/Forwarded.antt =====
-- What `handleRtp` makes of the packets that one call of `process_packet` hands on.
use open_prlx.Prelude.{
  ℕ, ◌≡◌, refl, ap, ap₂, sym, ◌∙◌, ◌&&◌, ◌||◌, not, if◌then◌else◌, if_true, if_false, leb, Bool,
  true, false, Option, none, some, List, [], ◌∷◌, ◌++◌, take, Bool-cases, inl, inr, All, arith,
}
use open_prlx.Wire.{Bytes}
use open_prlx.Context.{Context}
use open_prlx.Aggregator.{Sent}
use open_prlx.Aggregator.Whole.{IsPassable}
use open_prlx.WfbReceiver.{handle_rtp}
use open_prlx.WfbReceiver.Tracks.{IsTracked}
use open_prlx.WfbReceiver.Handled.{handle_rtp-Handled}
use open_prlx.WfbReceiver.Frames.{deliver, forward, add_sent}

-- The packets that are sent on, the last one first; `live` is whether there is a device and nothing
-- is stopping.
abbrev pub sent_on : Bool → Option (Bytes × ℕ) → Option Bytes
sent_on live none = none
sent_on live (some (buf, size)) = if live && leb 12 size then some (take size buf) else none

abbrev pub all_sent_on : Bool → List Sent → List Bytes
all_sent_on live [] = []
all_sent_on live (s ∷ log) = add_sent (sent_on live s.payload) (all_sent_on live log)

-- After some calls of `dcb` the context tracks the sets as before, and `packets` has been sent.
pub record Forwarded (ctx : Context) (out packets : List Bytes) (r : Context × List Bytes)
    : Type 0 where
  pub tracked : IsTracked r.0
  pub stop : r.0.should_stop ≡ ctx.should_stop
  pub sent : r.1 ≡ packets ++ out

abbrev pub Forwards : Context → List Bytes → List Bytes → Option (Context × List Bytes) → Type 0
Forwards ctx out packets o = (r : Context × List Bytes) × (o ≡ some r) × Forwarded ctx out packets r

abbrev pub live_of : Bool → Context → Bool
live_of device ctx = device && not ctx.should_stop

add_sent-append :
    (o : Option Bytes) (xs ys : List Bytes) → add_sent o (xs ++ ys) ≡ add_sent o xs ++ ys
add_sent-append none xs ys = refl
add_sent-append (some b) xs ys = refl

-- A packet without bytes is at most counted.
handle_rtp-empty :
    (ctx : Context) (device : Bool) (buf : Bytes)
    → IsTracked ctx
    → (r : Context × Option Bytes) × (handle_rtp ctx device buf 0 ≡ some r)
      × IsTracked r.0
      × (r.0.should_stop ≡ ctx.should_stop)
      × (r.1 ≡ none)
unfolding handle_rtp
handle_rtp-empty ctx device buf t = elim (Bool-cases (not device || ctx.should_stop)) [
  | inl off ↦ ((ctx, none), if_true _ _ off, t, refl, refl)
  | inr on ↦ (_, if_false _ _ on, record { latched = t.latched; clear = t.clear }, refl, refl)
]

no_bytes :
    (live : Bool) (buf : Bytes) (size : ℕ) → size ≡ 0 → sent_on live (some (buf, size)) ≡ none
no_bytes true buf size e = if_false {b = leb 12 size} _ _ (ground (arith, e))
no_bytes false buf size e = refl

pub deliver-Forwards :
    (ctx : Context) (out : List Bytes) (device : Bool) (payload : Option (Bytes × ℕ))
    → IsTracked ctx
    → IsPassable payload
    → Forwards ctx out
        (add_sent (sent_on (live_of device ctx) payload) [])
        (deliver (ctx, out) device payload)
unfolding deliver
deliver-Forwards ctx out device none t h =
    ((ctx, out), refl, record { tracked = t; stop = refl; sent = refl })
deliver-Forwards ctx out device (some (buf, size)) t (inl (room, fits)) =
    let (r, e, d) = handle_rtp-Handled ctx device buf size t room fits in
    (
      (r.0, add_sent r.1 out),
      rw (e, deliver) refl,
      record {
        tracked = d.tracked;
        stop = d.stop;
        sent =
            ap (λ o. add_sent o out) d.sent
            ∙ add_sent-append (sent_on (live_of device ctx) (some (buf, size))) [] out;
      },
    )
deliver-Forwards ctx out device (some (buf, size)) t (inr zero) =
    let (r, e, w, stop, quiet) = handle_rtp-empty ctx device buf t in
    (
      (r.0, add_sent r.1 out),
      rw (ap (handle_rtp ctx device buf) zero ∙ e, deliver) refl,
      record {
        tracked = w;
        stop = stop;
        sent =
            ap (λ o. add_sent o out) (quiet ∙ sym (no_bytes (live_of device ctx) buf size zero))
            ∙ add_sent-append (sent_on (live_of device ctx) (some (buf, size))) [] out;
      },
    )

pub forward-Forwards :
    (ctx : Context) (out : List Bytes) (device : Bool) (log : List Sent)
    → IsTracked ctx
    → All (λ s. IsPassable s.payload) log
    → Forwards ctx out (all_sent_on (live_of device ctx) log) (forward (ctx, out) device log)
unfolding forward
forward-Forwards ctx out device [] t h =
    ((ctx, out), refl, record { tracked = t; stop = refl; sent = refl })
forward-Forwards ctx out device (s ∷ log) t h =
    let (r, e, f) = forward-Forwards ctx out device log t h.1 in
    let (q, e', g) = deliver-Forwards r.0 r.1 device s.payload f.tracked h.0 in
    (
      q,
      rw (e, forward) e',
      record {
        tracked = g.tracked;
        stop = g.stop ∙ f.stop;
        sent =
            g.sent
            ∙ sym (add_sent-append (sent_on (live_of device r.0) s.payload) [] r.1)
            ∙ ap₂ (λ b l. add_sent (sent_on (device && not b) s.payload) l) f.stop f.sent
            ∙ add_sent-append (sent_on (live_of device ctx) s.payload)
                (all_sent_on (live_of device ctx) log) out;
      },
    )
