-- ===== src/WfbReceiver/Handled.antt =====
-- What `handleRtp` of src/wifi/WFBReceiver.cpp sends, counts and keeps.
use open_prlx.Prelude.{
  slice?-some, ℕ, ◌+◌, ◌%◌, ◌^◌, ◌≤◌, ◌≡◌, if_true, if_false, refl, sym, ◌∙◌, ◌&&◌, ◌||◌, not,
  if◌then◌else◌, ltb, leb, Bool, true, false, Option, none, some, take, length, Bool-cases, inl,
  inr, arith, leb→le,
}
use open_prlx.Wire.{Bytes}
use open_prlx.Context.{Context}
use open_prlx.WfbReceiver.{handle_rtp}
use open_prlx.WfbReceiver.Tracks.{IsTracked, detect_codec-Steps, describe-Steps, capture_sets-Steps}

-- What `handleRtp` does with a packet.
pub record Handled (ctx : Context) (device : Bool) (buf : Bytes) (size : ℕ)
    (r : Context × Option Bytes) : Type 0 where
  pub tracked : IsTracked r.0
  pub sent :
      r.1 ≡ (if device && not ctx.should_stop && leb 12 size then some (take size buf) else none)
  pub counted : r.0.rtp_pkt_count ≡ (
      if device && not ctx.should_stop then (ctx.rtp_pkt_count + 1) % 2 ^ 64 else ctx.rtp_pkt_count)
  pub stop : r.0.should_stop ≡ ctx.should_stop

-- On a packet of any size in a buffer that holds it and has at least 76 bytes, in a context where
-- `haveParamSets` is whether the sets that the codec needs are there, and none is there while the
-- codec is not known, `handleRtp` comes to an end and reads nothing past the buffer. It sends the
-- packet, unchanged, exactly if there is a device, nothing is stopping and the packet has at least
-- 12 bytes; it counts the packet exactly if there is a device and nothing is stopping; and
-- afterwards `haveParamSets` is right as before.
pub handle_rtp-Handled :
    (ctx : Context) (device : Bool) (buf : Bytes) (size : ℕ)
    → IsTracked ctx
    → 76 ≤ length buf
    → size ≤ length buf
    → (r : Context × Option Bytes) × (handle_rtp ctx device buf size ≡ some r)
      × Handled ctx device buf size r
unfolding handle_rtp
handle_rtp-Handled ctx device buf size t room fits =
    elim (Bool-cases (not device || ctx.should_stop)) [
      | inl off ↦
          let off_now = off_false device ctx.should_stop off in
          (
            (ctx, none),
            if_true _ _ off,
            record {
              tracked = t;
              sent = sym (if_false _ _ (and_off device ctx.should_stop (leb 12 size) off_now));
              counted = sym (if_false _ _ off_now);
              stop = refl;
            },
          )
      | inr on ↦
          let on_now = on_true device ctx.should_stop on in
          elim (Bool-cases (leb 12 size)) [
            | inr small ↦ (
              (counted, none),
              if_false _ _ on ∙ if_true _ _ (short_ltb size small),
              record {
                tracked = t;
                sent = sym (if_false _ _ (and_short device ctx.should_stop (leb 12 size) small));
                counted = sym (if_true _ _ on_now);
                stop = refl;
              },
            )
            | inl large ↦
                let long = leb→le 12 size large in
                let (a, p, f, x, k) = detect_codec-Steps counted buf size room long fits in
                let (b, q, g, y, o) = describe-Steps a buf size room long fits in
                let (c, r, h, z, s) = capture_sets-Steps b buf size room long fits in
                (
                  (c, some (take size buf)),
                  if_false _ _ on
                      ∙ (if_false _ _ (long_ltb size large)
                          ∙ rw (p, q, r, slice?-some buf 0 size (omega (arith, fits))) refl),
                  record {
                    tracked = h (g (f t));
                    sent =
                        sym (
                          if_true _ _
                            (and_three device ctx.should_stop (leb 12 size) on_now large));
                    counted = z ∙ y ∙ x ∙ sym (if_true _ _ on_now);
                    stop = s ∙ o ∙ k;
                  },
                )
          ]
    ]
  where
    counted : Context
    counted = record ctx { rtp_pkt_count = (ctx.rtp_pkt_count + 1) % 2 ^ 64 }

    off_false : (d s : Bool) → (not d || s) ≡ true → (d && not s) ≡ false
    off_false true true e = refl
    off_false true false e = absurd (cc e)
    off_false false s e = refl

    on_true : (d s : Bool) → (not d || s) ≡ false → (d && not s) ≡ true
    on_true true true e = absurd (cc e)
    on_true true false e = refl
    on_true false s e = absurd (cc e)

    short_ltb : (n : ℕ) → leb 12 n ≡ false → ltb n 12 ≡ true
    short_ltb n e = ground (arith, e)

    long_ltb : (n : ℕ) → leb 12 n ≡ true → ltb n 12 ≡ false
    long_ltb n e = ground (arith, e)

    and_three : (d s l : Bool) → (d && not s) ≡ true → l ≡ true → (d && not s && l) ≡ true
    and_three true true l e f = absurd (cc e)
    and_three true false l e f = f
    and_three false s l e f = absurd (cc e)

    and_short : (d s l : Bool) → l ≡ false → (d && not s && l) ≡ false
    and_short true true l f = refl
    and_short true false l f = f
    and_short false s l f = refl

    and_off : (d s l : Bool) → (d && not s) ≡ false → (d && not s && l) ≡ false
    and_off true true l e = refl
    and_off true false l e = absurd (cc e)
    and_off false s l e = refl
