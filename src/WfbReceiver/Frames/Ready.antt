-- ===== src/WfbReceiver/Frames/Ready.antt =====
-- A frame, and a round of the capture loop, on any input: nothing is read past a buffer, and no
-- `assert` fails.
use open_prlx.Prelude.{
  ltb, slice?, slice?-some, if_both, ℕ, ◌≡◌, ◌⊎◌, inl, inr, refl, ◌∙◌, subst, if◌then◌else◌,
  if_true, if_false, ◌>>=◌, Bool, true, false, Option, none, some, List, [], ◌∷◌, ◌++◌, ◌-◌, take,
  drop, length, ℤ, neg_part, ◌==◌, Bool-cases, replicate, leb, ◌<◌, ◌+◌, arith,
}
use open_prlx.Wire.{Bytes, htobe32, u32_bytes, to_u8}
use open_prlx.Context.{Context, take_tune, take_key, reset_detection}
use open_prlx.RxFrame.{matches_channel_id}
use open_prlx.RxFrame.Checks.{IsWfb, is_valid_wfb_frame-IsWfb, matches_channel_id-addresses}
use open_prlx.Aggregator.{Aggregator, new}
use open_prlx.Aggregator.Packet.{Library, process_packet}
use open_prlx.Aggregator.Valid.{IsValid}
use open_prlx.Aggregator.Valid.Packets.{HasTag, new-IsValid, process_packet-IsValid}
use open_prlx.Aggregator.Kept.{Holds}
use open_prlx.Aggregator.Whole.{IsHeld, MakesBlocks, new-IsHeld, process_packet-IsHeld}
use open_prlx.WfbReceiver.Tracks.{IsTracked, reset_detection-IsTracked}
use open_prlx.WfbReceiver.Frames.{
  Receiver, channel_id, wfb_payload, pass_on, handle_wfb_frame, handle_80211_frame, count_wifi,
  count_wfb, apply_tune, apply_key, apply_pending_control_actions, check_read, handle_frames,
  is_gone, is_timeout, Round, goes_on, throws, go_on, capture_round,
}
use open_prlx.WfbReceiver.Frames.Forwarded.{all_sent_on, live_of, forward-Forwards}

-- There is no aggregator, or one whose ring and buffers are well formed.
abbrev pub IsSound : Option Aggregator → Type 0
IsSound none = Unit
IsSound (some a) = IsValid a × IsHeld a

pub record IsReady (r : Receiver) : Type 0 where
  pub tracked : IsTracked r.ctx
  pub sound : IsSound r.aggregator

-- A frame of the protocol whose two addresses are those of the link's channel.
abbrev pub IsOurs : Bytes → Type 0
IsOurs frame =
    IsWfb frame
    × (take 12 (drop 10 frame)
        ≡ 0x57 ∷ 0x42 ∷ 0x75 ∷ 0x05 ∷ 0xD6 ∷ 0 ∷ 0x57 ∷ 0x42 ∷ 0x75 ∷ 0x05 ∷ 0xD6 ∷ 0 ∷ [])

abbrev pub payload_of : Bytes → Bytes
payload_of frame = take (length frame - 24 - 4) (drop 24 frame)

-- What a frame does to the receiver: nothing but counting, or, for a frame of the link, what
-- `process_packet` does, with all that it hands on sent.
abbrev pub Does : Library → Receiver → Bytes → Receiver → Type 0
Does library r frame s =
    ((s.aggregator ≡ r.aggregator) × (s.out ≡ r.out) × ((r.aggregator ≡ none) ⊎ (¬ IsOurs frame)))
    ⊎ ((a : Aggregator) × (b : Aggregator) × IsOurs frame
        × (r.aggregator ≡ some a)
        × (process_packet library a (payload_of frame) ≡ some b)
        × (s.aggregator ≡ some b)
        × (s.out ≡ all_sent_on (live_of r.device r.ctx) b.sent ++ r.out))

abbrev pub Ends : Library → Receiver → Bytes → Option Receiver → Type 0
Ends library r frame o = (s : Receiver) × (o ≡ some s) × IsReady s × Does library r frame s

wfb_payload-some : (frame : Bytes) → IsWfb frame → wfb_payload frame ≡ some (payload_of frame)
unfolding wfb_payload
wfb_payload-some frame wfb =
    if_false {b = ltb (length frame) 28} none (slice? frame 24 (length frame - 24 - 4))
      (ground (arith, wfb.long))
    ∙ slice?-some frame 24 (length frame - 24 - 4) (omega (arith, wfb.long))

module _ (library : Library) (has_tag : HasTag library)
    (makes : MakesBlocks library.fec_decode) where
  pass_on-Ends :
      (r : Receiver) (a : Aggregator) (frame : Bytes)
      → IsTracked r.ctx
      → IsSound (some a)
      → r.aggregator ≡ some a
      → IsOurs frame
      → Ends library r frame (pass_on library r a frame)
  unfolding pass_on
  pass_on-Ends r a frame t (v, h) have ours =
      let buf = payload_of frame in
      let (b, e, w) = process_packet-IsValid library has_tag a v buf in
      let held = subst (Holds IsHeld) e (process_packet-IsHeld library makes a buf h) in
      let (q, e', f) = forward-Forwards r.ctx r.out r.device b.sent t held.passed in
      (
        record r { ctx = q.0; aggregator = some b; out = q.1 },
        rw (wfb_payload-some frame ours.0, e, pass_on) (rw e' refl),
        record { tracked = f.tracked; sound = (w, held) },
        inr (a, b, ours, have, e, refl, f.sent),
      )

  handle_wfb_frame-Ends :
      (r : Receiver) (frame : Bytes)
      → IsReady r
      → IsWfb frame
      → Ends library r frame (handle_wfb_frame library r frame)
  unfolding handle_wfb_frame htobe32
  handle_wfb_frame-Ends r frame h wfb = go r.aggregator refl h.sound
    where
      found : Aggregator → Option Receiver
      found a = do
        ours ← matches_channel_id frame (u32_bytes (htobe32 channel_id))
        if ours then pass_on library r a frame else some r

      go :
          (o : Option Aggregator)
          → r.aggregator ≡ o
          → IsSound o
          → Ends library r frame (elim o [ none ↦ some r | some a ↦ found a ])
      go none e k = (r, refl, h, inl (refl, refl, inl e))
      go (some a) e k =
          let (ours, read, iff) = matches_channel_id-addresses frame 0x75 0x05 0xD6 0 wfb in
          elim (Bool-cases ours) [
            | inl yes_ours ↦
                let (s, q, ready, did) =
                  pass_on-Ends r a frame h.tracked k e (wfb, iff.0 yes_ours) in
                (s, rw read (if_true (pass_on library r a frame) (some r) yes_ours ∙ q), ready, did)
            | inr no_ours ↦ (
              r,
              rw read (if_false (pass_on library r a frame) (some r) no_ours),
              h,
              inl (refl, refl, inr (λ (_, e). cc (no_ours, iff.1 e))),
            )
          ]

  -- On any frame, `handle80211Frame` comes to an end: nothing is read past the frame or past a
  -- packet's buffer, and no `assert` fails. It hands the payload to the aggregator, if there is one,
  -- exactly for the protocol's frames with the link's channel in both addresses, and sends on all
  -- packets that the aggregator then hands on, in order and unchanged, if there is a device and
  -- nothing is stopping and they have 12 bytes; otherwise it only counts. It keeps the aggregator
  -- well formed and `haveParamSets` right. This supposes of libsodium that a plaintext is as long as
  -- its ciphertext without the tag, and of `fec_decode` that it writes blocks of the size given.
  pub handle_80211_frame-Ends :
      (r : Receiver) (frame : Bytes)
      → IsReady r
      → Ends library r frame (handle_80211_frame library r frame)
  unfolding handle_80211_frame
  handle_80211_frame-Ends r frame h =
      let (valid, read, iff) = is_valid_wfb_frame-IsWfb frame in
      let t : IsTracked r.ctx = h.tracked in
      elim (Bool-cases valid) [
        | inl wfb ↦
            let next = count_wfb (count_wifi r) in
            let ready : IsReady next = record {
              tracked = record { latched = t.latched; clear = t.clear };
              sound = h.sound;
            } in
            let (s, q, ready', did) = handle_wfb_frame-Ends next frame ready (iff.0 wfb) in
            (
              s,
              rw read (if_true (handle_wfb_frame library next frame) (some (count_wifi r)) wfb ∙ q),
              ready',
              did,
            )
        | inr other ↦ (
          count_wifi r,
          rw read (
              if_false (handle_wfb_frame library (count_wfb (count_wifi r)) frame)
                (some (count_wifi r)) other),
          record { tracked = record { latched = t.latched; clear = t.clear }; sound = h.sound },
          inl (refl, refl, inr (λ (wfb, _). cc (other, iff.1 wfb))),
        )
      ]

  handle_frames-IsReady :
      (frames : List Bytes) (r : Receiver)
      → IsReady r
      → (s : Receiver) × (handle_frames library r frames ≡ some s) × IsReady s
  unfolding handle_frames
  handle_frames-IsReady [] r h = (r, refl, h)
  handle_frames-IsReady (frame ∷ frames) r h =
      let (s, e, ready, _) = handle_80211_frame-Ends r frame h in
      let (q, e', last) = handle_frames-IsReady frames s ready in
      (q, rw (e, handle_frames) e', last)

apply_tune-IsReady :
    (set_channel : ℕ → ℤ → Bool) (r : Receiver) → IsReady r → IsReady (apply_tune set_channel r)
unfolding apply_tune take_tune
apply_tune-IsReady set_channel r h =
    if_both (λ p. IsReady (tuned p)) r.ctx.reqs.tune_pending
      (taken, some (r.ctx.reqs.pending_channel, r.ctx.reqs.pending_width)) (r.ctx, none)
      (λ _.
        if_both IsReady (set_channel ch (width r.ctx.reqs.pending_width)) _ _
          (λ _. record { tracked = reset_detection-IsTracked taken; sound = h.sound })
          (λ _. record { tracked = kept; sound = h.sound }))
      (λ _. h)
  where
    ch : ℕ
    ch = to_u8 r.ctx.reqs.pending_channel

    width : ℤ → ℤ
    width w = if neg_part w == 0 then w else r.cur_width

    taken : Context
    taken = record (r.ctx) { reqs = record (r.ctx.reqs) { tune_pending = false } }

    kept : IsTracked taken
    kept = record { latched = h.tracked.latched; clear = h.tracked.clear }

    tuned : Context × Option (ℤ × ℤ) → Receiver
    tuned p = elim (p.1) [
      | none ↦ record r { ctx = p.0 }
      | some (c, w) ↦
          if set_channel (to_u8 c) (width w)
          then record r { ctx = reset_detection (p.0); cur_channel = to_u8 c; cur_width = width w }
          else record r { ctx = p.0 }
    ]

apply_key-IsReady : (r : Receiver) → IsReady r → IsReady (apply_key r)
unfolding apply_key take_key
apply_key-IsReady r h =
    if_both (λ p. IsReady (keyed p)) r.ctx.reqs.key_pending (taken, some key) (r.ctx, none)
      (λ _. record {
        tracked = reset_detection-IsTracked taken;
        sound = (new-IsValid key 0 channel_id true, new-IsHeld key 0 channel_id true);
      })
      (λ _. h)
  where
    key : Bytes
    key = r.ctx.reqs.pending_key

    taken : Context
    taken = record (r.ctx) {
      reqs = record (r.ctx.reqs) { key_pending = false; pending_key = replicate 64 0 };
    }

    keyed : Context × Option Bytes → Receiver
    keyed p = elim (p.1) [
      | none ↦ record r { ctx = p.0 }
      | some k ↦ record r {
        ctx = reset_detection (p.0);
        aggregator = some (new k 0 channel_id true);
      }
    ]

-- The receiver is ready after a round, and fewer than ten errors are counted where it goes on.
abbrev pub IsFine : Round → Type 0
IsFine (goes_on r errors) = IsReady r × (errors < 10)
IsFine (throws r) = IsReady r

check_read-below : (errors : ℕ) (rc : ℤ) → errors < 10 → Holds (λ e. e < 10) (check_read errors rc)
unfolding check_read
check_read-below errors rc h =
    if_both P (is_gone rc) none _ (λ _. tt)
      (λ _.
        if_both P (is_timeout rc) (some errors) _ (λ _. h)
          (λ _.
            if_both P (neg_part rc == 0) (some 0) _ (λ _. omega arith)
              (λ _.
                if_both P (leb 10 (errors + 1)) none (some (errors + 1)) (λ _. tt)
                  (λ e. ground (arith, e)))))
  where
    P : Option ℕ → Type 0
    P = Holds (λ e. e < 10)

-- A round of the capture loop, whatever is staged and whatever frames are read, comes to an end with
-- no failed `assert` and no read past a buffer: it goes on with fewer than ten consecutive errors
-- counted, or throws, and the receiver is as well formed as before. This supposes of the libraries
-- what is supposed for a frame.
pub capture_round-IsFine :
    (library : Library)
    → HasTag library
    → MakesBlocks library.fec_decode
    → (set_channel : ℕ → ℤ → Bool) (r : Receiver) (errors : ℕ) (rc : ℤ) (frames : List Bytes)
    → IsReady r
    → errors < 10
    → (round : Round) × (capture_round library set_channel r errors rc frames ≡ some round)
      × IsFine round
unfolding capture_round apply_pending_control_actions
capture_round-IsFine library has_tag makes set_channel r errors rc frames h few =
    go (check_read errors rc) (check_read-below errors rc few)
  where
    next : Receiver
    next = apply_key (apply_tune set_channel r)

    ready : IsReady next
    ready = apply_key-IsReady (apply_tune set_channel r) (apply_tune-IsReady set_channel r h)

    go :
        (o : Option ℕ)
        → Holds (λ e. e < 10) o
        → (round : Round) × ((elim o [
          | none ↦ some (throws next)
          | some errors' ↦ handle_frames library next frames >>= go_on errors'
        ])
            ≡ some round)
          × IsFine round
    go none k = (throws next, refl, ready)
    go (some e) k =
        let (s, q, last) = handle_frames-IsReady library has_tag makes frames next ready in
        (goes_on s e, rw q refl, (last, k))
