-- ===== src/Sdp.antt =====
-- src/Sdp.cpp: the parameter sets of a video stream, taken from the payloads of RTP packets. A
-- string is the list of its bytes; a read past a payload is `none`.
pub mod Walk
pub mod Total
pub mod Build
mod Tests
use open_prlx.Prelude.{
  slice?, ℕ, zero, suc, ◌+◌, ◌*◌, ◌/◌, ◌%◌, ◌==◌, ◌&&◌, ◌||◌, not, if◌then◌else◌, ltb, leb, Bool,
  true, false, Option, none, some, List, [], ◌∷◌, take, drop, length, get_elem?, get_or, ◌>>=◌,
}
use open_prlx.Wire.{Bytes, same_bytes}
use open_prlx.Context.{Codec, auto, h264, h265, ParamSets}

-- The out-strings of a function, with the flag that it returns.
abbrev pub Capture : Type 0
Capture = Bool × ParamSets

unfoldable pub store_h264 : Bytes → ParamSets → Capture
store_h264 nal sets =
    let t = get_or nal 0 0 % 32 in
    if (t == 7) && not (same_bytes sets.sps nal)
    then (true, record sets { sps = nal })
    else if (t == 8) && not (same_bytes sets.pps nal)
    then (true, record sets { pps = nal })
    else (false, sets)

unfoldable pub store_h265 : Bytes → ParamSets → Capture
store_h265 nal sets =
    let t = get_or nal 0 0 / 2 % 64 in
    if ltb (length nal) 2
    then (false, sets)
    else if (t == 32) && not (same_bytes sets.vps nal)
    then (true, record sets { vps = nal })
    else if (t == 33) && not (same_bytes sets.sps nal)
    then (true, record sets { sps = nal })
    else if (t == 34) && not (same_bytes sets.pps nal)
    then (true, record sets { pps = nal })
    else (false, sets)

-- The guards put every read of the NAL unit within it.
unfoldable pub store_if_param_set : Codec → Bytes → ParamSets → Capture
store_if_param_set codec [] sets = (false, sets)
store_if_param_set auto (b ∷ bs) sets = (false, sets)
store_if_param_set h264 (b ∷ bs) sets = store_h264 (b ∷ bs) sets
store_if_param_set h265 (b ∷ bs) sets = store_h265 (b ∷ bs) sets

-- One round: `captured |= storeIfParamSet(...)`.
unfoldable pub capture : Codec → Capture → Bytes → Capture
capture codec (captured, sets) nal =
    let (c, next) = store_if_param_set codec nal sets in (captured || c, next)

-- The `while` loop, with at most `fuel` rounds; `none` is that they are used up.
unfoldable pub walk_aggregation : ℕ → Codec → Bytes → ℕ → Capture → Option Capture
walk_aggregation zero codec p off acc = none
walk_aggregation (suc fuel) codec p off acc =
    if leb (off + 2) (length p)
    then (do
      high ← get_elem? p off
      low ← get_elem? p (off + 1)
      let nal_size : ℕ = high * 256 + low
      let rest : Option Capture = do
        nal ← slice? p (off + 2) nal_size
        walk_aggregation fuel codec p (off + 2 + nal_size) (capture codec acc nal)
      if (nal_size == 0) || ltb (length p) (off + 2 + nal_size) then some acc else rest)
    else some acc

unfoldable pub extract_h264 : Bytes → ParamSets → Option Capture
extract_h264 payload sets =
    let t = get_or payload 0 0 % 32 in
    if t == 24
    then walk_aggregation (length payload) h264 payload 1 (false, sets)
    else if leb 1 t && leb t 23
    then some (store_if_param_set h264 payload sets)
    else some (false, sets)

unfoldable pub extract_h265 : Bytes → ParamSets → Option Capture
extract_h265 payload sets =
    let t = get_or payload 0 0 / 2 % 64 in
    if ltb (length payload) 2
    then some (false, sets)
    else if t == 48
    then walk_aggregation (length payload) h265 payload 2 (false, sets)
    else if leb t 47
    then some (store_if_param_set h265 payload sets)
    else some (false, sets)

unfoldable pub sdp_extract_param_sets : Codec → Bytes → ParamSets → Option Capture
sdp_extract_param_sets codec [] sets = some (false, sets)
sdp_extract_param_sets auto (b ∷ bs) sets = some (false, sets)
sdp_extract_param_sets h264 (b ∷ bs) sets = extract_h264 (b ∷ bs) sets
sdp_extract_param_sets h265 (b ∷ bs) sets = extract_h265 (b ∷ bs) sets

abbrev pub is_empty : Bytes → Bool
is_empty s = length s == 0

unfoldable pub sdp_params_complete : Codec → ParamSets → Bool
sdp_params_complete auto sets = false
sdp_params_complete h264 sets = not (is_empty sets.sps) && not (is_empty sets.pps)
sdp_params_complete h265 sets =
    not (is_empty sets.vps) && not (is_empty sets.sps) && not (is_empty sets.pps)
