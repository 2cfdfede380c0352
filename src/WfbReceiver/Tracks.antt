-- ===== src/WfbReceiver/Tracks.antt =====
-- The steps of `handleRtp` read within the buffer, and keep the flag of the parameter sets right.
use open_prlx.Prelude.{
  slice?-some, ℕ, zero, suc, ◌+◌, ◌≤◌, ◌≡◌, ◌≢◌, if_true, if_false, refl, ap, sym, ◌∙◌, ◌||◌, Bool,
  true, false, Option, some, ℤ, pos, pos_part, take, drop, length, get_or, get_elem?-some,
  Bool-cases, inl, inr, arith,
}
use open_prlx.Wire.{Bytes, be_to_host}
use open_prlx.Context.{Codec, auto, h264, h265, ParamSets, no_sets, Context, reset_detection}
use open_prlx.Rtp.{pt_of}
use open_prlx.Rtp.Bounds.{Sizes, get_payload_size-Sizes}
use open_prlx.Sdp.{Capture, sdp_params_complete}
use open_prlx.Sdp.Total.{Progress, sdp_extract_param_sets-Progress}
use open_prlx.WfbReceiver.{
  is_auto, sniff_codec, sniff_payload, detect_codec, capture_payload, describe, keep_sets,
  capture_sets,
}

-- `haveParamSets` is whether the sets that the codec needs are there, and none is there while the
-- codec is not known.
pub record Tracked (codec : Codec) (sets : ParamSets) (flag : Bool) : Type 0 where
  pub latched : flag ≡ sdp_params_complete codec sets
  pub clear : codec ≡ auto → sets ≡ no_sets

abbrev pub IsTracked : Context → Type 0
IsTracked ctx = Tracked ctx.codec ctx.sdp ctx.have_param_sets

nothing_complete : (codec : Codec) → sdp_params_complete codec no_sets ≡ false
unfolding sdp_params_complete
nothing_complete auto = refl
nothing_complete h264 = refl
nothing_complete h265 = refl

-- The reset makes the flag right, whatever it was.
pub reset_detection-IsTracked : (ctx : Context) → IsTracked (reset_detection ctx)
unfolding reset_detection
reset_detection-IsTracked ctx = record {
  latched = sym (nothing_complete ctx.codec_hint);
  clear = λ _. refl;
}

sniff_codec-known : (byte : ℕ) → is_auto (sniff_codec byte) ≡ false
unfolding is_auto sniff_codec
sniff_codec-known byte = ground arith

-- A codec that comes to be known leaves the flag right.
known_later :
    (old new : Codec) (sets : ParamSets) (flag : Bool)
    → is_auto old ≡ true
    → is_auto new ≡ false
    → Tracked old sets flag
    → Tracked new sets flag
unfolding is_auto sdp_params_complete
known_later auto auto sets flag was now h = absurd (cc now)
known_later auto h264 sets flag was now h = record {
  latched = h.latched ∙ sym (ap (sdp_params_complete h264) (h.clear refl) ∙ nothing_complete h264);
  clear = λ e. h.clear refl;
}
known_later auto h265 sets flag was now h = record {
  latched = h.latched ∙ sym (ap (sdp_params_complete h265) (h.clear refl) ∙ nothing_complete h265);
  clear = λ e. h.clear refl;
}
known_later h264 new sets flag was now h = absurd (cc was)
known_later h265 new sets flag was now h = absurd (cc was)

not_auto : (codec : Codec) → is_auto codec ≡ false → codec ≢ auto
unfolding is_auto
not_auto codec known e = absurd (cc (known, ap is_auto e))

keep_sets-IsTracked :
    (ctx : Context) (r : Capture)
    → ctx.have_param_sets ≡ false
    → is_auto ctx.codec ≡ false
    → IsTracked ctx
    → Progress ctx.codec ctx.sdp r
    → IsTracked (keep_sets ctx r)
unfolding keep_sets
keep_sets-IsTracked ctx (true, sets) none_yet known h p = record {
  latched = ap (λ b. b || sdp_params_complete ctx.codec sets) none_yet;
  clear = λ e. absurd (not_auto ctx.codec known e);
}
keep_sets-IsTracked ctx (false, sets) none_yet known h p = record {
  latched =
      ap (λ b. b || false) none_yet
      ∙ sym none_yet
      ∙ h.latched
      ∙ ap (sdp_params_complete ctx.codec) (sym (p.kept refl));
  clear = λ e. absurd (not_auto ctx.codec known e);
}

-- A step comes to an end, leaves the flag right if it was, counts nothing and stops nothing.
abbrev pub Steps : Context → Option Context → Type 0
Steps ctx o =
    (next : Context) × (o ≡ some next)
    × (IsTracked ctx → IsTracked next)
    × (next.rtp_pkt_count ≡ ctx.rtp_pkt_count)
    × (next.should_stop ≡ ctx.should_stop)

module _ (ctx : Context) (buf : Bytes) (size : ℕ) (room : 76 ≤ length buf) (long : 12 ≤ size)
    (fits : size ≤ length buf) where
  sniff_payload-Steps :
      (n : ℕ) (plen : ℤ)
      → is_auto ctx.codec ≡ true
      → pos_part plen ≡ n
      → Sizes buf size plen
      → Steps ctx (sniff_payload ctx buf n)
  unfolding sniff_payload
  sniff_payload-Steps zero plen unknown e s = (ctx, refl, (λ h. h), refl, refl)
  sniff_payload-Steps (suc n) plen unknown e s =
      let byte =
        get_elem?-some buf (12 + s.offset) 0
          (omega (arith, s.inside (omega (arith, e)), e, fits)) in
      let codec = sniff_codec (get_or buf (12 + s.offset) 0) in
      (
        record ctx { codec = codec },
        rw (s.offset_read, byte) refl,
        known_later ctx.codec codec ctx.sdp ctx.have_param_sets unknown
            (sniff_codec-known (get_or buf (12 + s.offset) 0)),
        refl,
        refl,
      )

  pub detect_codec-Steps : Steps ctx (detect_codec ctx buf size)
  unfolding detect_codec
  detect_codec-Steps =
      let (plen, e, s) = get_payload_size-Sizes buf room size long fits in
      elim (Bool-cases (is_auto ctx.codec)) [
        | inl unknown ↦
            let (next, q, h, c, d) = sniff_payload-Steps (pos_part plen) plen unknown refl s in
            (next, if_true _ _ unknown ∙ rw e q, h, c, d)
        | inr known ↦ (ctx, if_false _ _ known, (λ h. h), refl, refl)
      ]

  pub describe-Steps : Steps ctx (describe ctx buf)
  unfolding describe
  describe-Steps = elim (Bool-cases ctx.described) [
    | inl done ↦ (ctx, if_true _ _ done, (λ h. h), refl, refl)
    | inr first ↦ (
      record ctx {
        described = true;
        rtp_payload_type = pos (pt_of (get_or buf 1 0));
        ssrc = be_to_host (take 4 (drop 8 buf));
      },
      if_false _ _ first
          ∙ rw (get_elem?-some buf 1 0 (omega (arith, room)))
              (rw (slice?-some buf 8 4 (omega (arith, room))) refl),
      (λ h. h),
      refl,
      refl,
    )
  ]

  capture_payload-Steps :
      (n : ℕ) (plen : ℤ)
      → ctx.have_param_sets ≡ false
      → is_auto ctx.codec ≡ false
      → pos_part plen ≡ n
      → Sizes buf size plen
      → Steps ctx (capture_payload ctx buf n)
  unfolding capture_payload keep_sets
  capture_payload-Steps zero plen none_yet known e s = (ctx, refl, (λ h. h), refl, refl)
  capture_payload-Steps (suc n) plen none_yet known some_bytes s =
      let payload = take (suc n) (drop (12 + s.offset) buf) in
      let (r, e, p) = sdp_extract_param_sets-Progress ctx.codec payload ctx.sdp in
      (
        keep_sets ctx r,
        rw
            (
              s.offset_read,
              slice?-some buf (12 + s.offset) (suc n)
                  (omega (arith, s.inside (omega (arith, some_bytes)), some_bytes, fits)),
              e,
            )
            refl,
        (λ h. keep_sets-IsTracked ctx r none_yet known h p),
        refl,
        refl,
      )

  pub capture_sets-Steps : Steps ctx (capture_sets ctx buf size)
  unfolding capture_sets
  capture_sets-Steps = elim (Bool-cases ctx.have_param_sets) [
    | inl have ↦ (ctx, if_true _ _ have, (λ h. h), refl, refl)
    | inr none_yet ↦
        let (plen, e, s) = get_payload_size-Sizes buf room size long fits in
        elim (Bool-cases (is_auto ctx.codec)) [
          | inl unknown ↦
              (ctx, if_false _ _ none_yet ∙ rw e (if_true _ _ unknown), (λ h. h), refl, refl)
          | inr known ↦
              let (next, q, h, c, d) =
                capture_payload-Steps (pos_part plen) plen none_yet known refl s in
              (next, if_false _ _ none_yet ∙ rw e (if_false _ _ known ∙ q), h, c, d)
        ]
  ]
