-- ===== src/Sdp/Total.antt =====
-- `sdpExtractParamSets` on any payload: it ends, and what its result says of the parameter sets.
use open_prlx.Prelude.{
  slice?-some, ◌%◌, ◌/◌, ℕ, zero, suc, ◌+◌, ◌*◌, ◌≤◌, ◌<◌, ◌⊎◌, ◌≡◌, refl, ◌∙◌, ◌==◌, ◌&&◌, ◌||◌,
  not, ltb, leb, Bool, true, false, Option, some, [], ◌∷◌, take, drop, length, get_elem?-some,
  get_or, inl, inr, Bool-cases, arith, leb→le,
}
use open_prlx.Wire.{Bytes, same_bytes}
use open_prlx.Context.{Codec, auto, h264, h265, ParamSets}
use open_prlx.Sdp.{
  Capture, store_h264, store_h265, store_if_param_set, capture, walk_aggregation, extract_h264,
  extract_h265, sdp_extract_param_sets, sdp_params_complete,
}

-- A result of false leaves the sets as they were, and sets that are complete stay so.
pub record Progress (codec : Codec) (sets : ParamSets) (r : Capture) : Type 0 where
  pub kept : r.0 ≡ false → r.1 ≡ sets
  pub stays : sdp_params_complete codec sets ≡ true → sdp_params_complete codec r.1 ≡ true

Progress-refl : (codec : Codec) (sets : ParamSets) → Progress codec sets (false, sets)
Progress-refl codec sets = record { kept = λ _. refl; stays = λ h. h }

store_h264-Progress :
    (b : ℕ) (bs : Bytes) (sets : ParamSets) → Progress h264 sets (store_h264 (b ∷ bs) sets)
unfolding store_h264 sdp_params_complete
store_h264-Progress b bs sets =
    let t = b % 32 in
    elim (Bool-cases ((t == 7) && not (same_bytes sets.sps (b ∷ bs)))) [
      | inl sps ↦ rw sps (record { kept = λ e. absurd (cc e); stays = λ h. ground (arith, h) })
      | inr not_sps ↦ elim (Bool-cases ((t == 8) && not (same_bytes sets.pps (b ∷ bs)))) [
        | inl pps ↦
            rw (not_sps, pps) (record { kept = λ e. absurd (cc e); stays = λ h. ground (arith, h) })
        | inr other ↦ rw (not_sps, other) (record { kept = λ _. refl; stays = λ h. h })
      ]
    ]

store_h265-Progress :
    (b : ℕ) (bs : Bytes) (sets : ParamSets) → Progress h265 sets (store_h265 (b ∷ bs) sets)
unfolding store_h265 sdp_params_complete
store_h265-Progress b bs sets =
    let t = b / 2 % 64 in
    elim (Bool-cases (ltb (length (b ∷ bs)) 2)) [
      | inl short ↦ rw short (record { kept = λ _. refl; stays = λ h. h })
      | inr long ↦ elim (Bool-cases ((t == 32) && not (same_bytes sets.vps (b ∷ bs)))) [
        | inl vps ↦
            rw (long, vps) (record { kept = λ e. absurd (cc e); stays = λ h. ground (arith, h) })
        | inr not_vps ↦ elim (Bool-cases ((t == 33) && not (same_bytes sets.sps (b ∷ bs)))) [
          | inl sps ↦
              rw (long, not_vps, sps)
                (record { kept = λ e. absurd (cc e); stays = λ h. ground (arith, h) })
          | inr not_sps ↦ elim (Bool-cases ((t == 34) && not (same_bytes sets.pps (b ∷ bs)))) [
            | inl pps ↦
                rw (long, not_vps, not_sps, pps)
                  (record { kept = λ e. absurd (cc e); stays = λ h. ground (arith, h) })
            | inr other ↦
                rw (long, not_vps, not_sps, other) (record { kept = λ _. refl; stays = λ h. h })
          ]
        ]
      ]
    ]

store_if_param_set-Progress :
    (codec : Codec) (nal : Bytes) (sets : ParamSets)
    → Progress codec sets (store_if_param_set codec nal sets)
unfolding store_if_param_set
store_if_param_set-Progress codec [] sets = Progress-refl codec sets
store_if_param_set-Progress auto (b ∷ bs) sets = Progress-refl auto sets
store_if_param_set-Progress h264 (b ∷ bs) sets = store_h264-Progress b bs sets
store_if_param_set-Progress h265 (b ∷ bs) sets = store_h265-Progress b bs sets

Progress-capture :
    (codec : Codec) (sets : ParamSets) (acc : Capture) (nal : Bytes)
    → Progress codec sets acc
    → Progress codec sets (capture codec acc nal)
unfolding capture
Progress-capture codec sets (true, now) nal p = record {
  kept = λ e. absurd (cc e);
  stays = λ h. (store_if_param_set-Progress codec nal now).stays (p.stays h);
}
Progress-capture codec sets (false, now) nal p =
    let q = store_if_param_set-Progress codec nal now in
    record { kept = λ e. q.kept e ∙ p.kept refl; stays = λ h. q.stays (p.stays h) }

-- Every call of the function ends so.
abbrev pub Ends : Codec → ParamSets → Option Capture → Type 0
Ends codec sets o = (r : Capture) × (o ≡ some r) × Progress codec sets r

walk_aggregation-Ends :
    (fuel : ℕ) (codec : Codec) (p : Bytes) (off : ℕ) (sets : ParamSets) (acc : Capture)
    → 0 < fuel
    → length p < off + fuel
    → Progress codec sets acc
    → Ends codec sets (walk_aggregation fuel codec p off acc)
unfolding walk_aggregation
walk_aggregation-Ends zero codec p off sets acc some_left enough h =
    absurd (omega (arith, some_left))
walk_aggregation-Ends (suc fuel) codec p off sets acc some_left enough h =
    elim (Bool-cases (leb (off + 2) (length p))) [
      | inr over ↦ rw over (acc, refl, h)
      | inl more ↦
          let room = leb→le (off + 2) (length p) more in
          let high = get_elem?-some p off 0 (omega (arith, room)) in
          let low = get_elem?-some p (off + 1) 0 (omega (arith, room)) in
          let size = get_or p off 0 * 256 + get_or p (off + 1) 0 in
          elim (Bool-cases ((size == 0) || ltb (length p) (off + 2 + size))) [
            | inl bad ↦ rw (more, high, low, bad) (acc, refl, h)
            | inr good ↦
                let inside : off + 2 + size ≤ length p = ground (arith, good) in
                let some_size : 0 < size = ground (arith, good) in
                rw (more, high, low, good, slice?-some p (off + 2) size inside)
                  (walk_aggregation-Ends fuel codec p (off + 2 + size) sets
                    (capture codec acc (take size (drop (off + 2) p)))
                    (omega (arith, enough, inside, some_size))
                    (omega (arith, enough, inside, some_size))
                    (Progress-capture codec sets acc (take size (drop (off + 2) p)) h))
          ]
    ]

extract_h264-Ends :
    (b : ℕ) (bs : Bytes) (sets : ParamSets) → Ends h264 sets (extract_h264 (b ∷ bs) sets)
unfolding extract_h264
extract_h264-Ends b bs sets =
    let p : Bytes = b ∷ bs in
    let t = b % 32 in
    elim (Bool-cases (t == 24)) [
      | inl stap ↦ rw stap (
          walk_aggregation-Ends (length p) h264 p 1 sets (false, sets) (omega arith) (omega arith)
            (Progress-refl h264 sets))
      | inr not_stap ↦ elim (Bool-cases (leb 1 t && leb t 23)) [
        | inl one ↦ rw (not_stap, one) (_, refl, store_if_param_set-Progress h264 p sets)
        | inr other ↦ rw (not_stap, other) (_, refl, Progress-refl h264 sets)
      ]
    ]

extract_h265-Ends :
    (b : ℕ) (bs : Bytes) (sets : ParamSets) → Ends h265 sets (extract_h265 (b ∷ bs) sets)
unfolding extract_h265
extract_h265-Ends b bs sets =
    let p : Bytes = b ∷ bs in
    let t = b / 2 % 64 in
    elim (Bool-cases (ltb (length p) 2)) [
      | inl short ↦ rw short (_, refl, Progress-refl h265 sets)
      | inr long ↦ elim (Bool-cases (t == 48)) [
        | inl ap_unit ↦
            rw (long, ap_unit)
              (walk_aggregation-Ends (length p) h265 p 2 sets (false, sets) (omega arith)
                (omega arith) (Progress-refl h265 sets))
        | inr not_ap ↦ elim (Bool-cases (leb t 47)) [
          | inl one ↦ rw (long, not_ap, one) (_, refl, store_if_param_set-Progress h265 p sets)
          | inr other ↦ rw (long, not_ap, other) (_, refl, Progress-refl h265 sets)
        ]
      ]
    ]

pub sdp_extract_param_sets-Progress :
    (codec : Codec) (payload : Bytes) (sets : ParamSets)
    → (r : Capture) × (sdp_extract_param_sets codec payload sets ≡ some r) × Progress codec sets r
unfolding sdp_extract_param_sets
sdp_extract_param_sets-Progress codec [] sets = (_, refl, Progress-refl codec sets)
sdp_extract_param_sets-Progress auto (b ∷ bs) sets = (_, refl, Progress-refl auto sets)
sdp_extract_param_sets-Progress h264 (b ∷ bs) sets = extract_h264-Ends b bs sets
sdp_extract_param_sets-Progress h265 (b ∷ bs) sets = extract_h265-Ends b bs sets

-- On every payload `sdpExtractParamSets` ends and reads nothing past the payload. Its result is true
-- or the parameter sets are as before; and they were not complete for the codec or are complete.
pub sdp_extract_param_sets-ends :
    (codec : Codec) (payload : Bytes) (sets : ParamSets)
    → (r : Capture) × (sdp_extract_param_sets codec payload sets ≡ some r)
      × ((r.0 ≡ true) ⊎ (r.1 ≡ sets))
      × ((sdp_params_complete codec sets ≡ false) ⊎ (sdp_params_complete codec r.1 ≡ true))
sdp_extract_param_sets-ends codec payload sets =
    let (r, e, p) = sdp_extract_param_sets-Progress codec payload sets in
    (r, e, kept_or r.0 p.kept, stays_or (sdp_params_complete codec sets) p.stays)
  where
    kept_or : {A : Type 0} (b : Bool) → (b ≡ false → A) → (b ≡ true) ⊎ A
    kept_or true f = inl refl
    kept_or false f = inr (f refl)

    stays_or : {A : Type 0} (b : Bool) → (b ≡ true → A) → (b ≡ false) ⊎ A
    stays_or true f = inr (f refl)
    stays_or false f = inl refl
