-- ===== src/Sdp/Tests.antt =====
-- An aggregation packet with the two parameter sets of H.264.
use open_prlx.Prelude.{
  ◌≡◌, ◌⊎◌, refl, arith, some, false, true, List, [], ◌∷◌, ◌++◌, ascii, pos, negsuc, lacks,
  lacks-IsLine,
}
use open_prlx.Wire.{Bytes}
use open_prlx.Context.{ParamSets, h264, no_sets}
use open_prlx.Sdp.{Capture, sdp_params_complete, sdp_extract_param_sets}
use open_prlx.Sdp.Walk.{pack, capture_all, sdp_extract_param_sets-pack}
use open_prlx.Sdp.Build.{sdp_build}
use open_prlx.Sdp.Build.Lines.{IsBase64, read_lines, all_lines, sdp_build-read_lines}
use open_prlx.Sdp.Total.{sdp_extract_param_sets-ends}

abbrev two_sets : List Bytes
two_sets = (103 ∷ 66 ∷ []) ∷ (104 ∷ 206 ∷ []) ∷ []

sdp_extract_param_sets-pack_example :
    sdp_extract_param_sets h264 ((120 ∷ []) ++ pack two_sets) no_sets
    ≡ some (capture_all h264 (false, no_sets) two_sets)
sdp_extract_param_sets-pack_example =
    sdp_extract_param_sets-pack h264 (120 ∷ []) two_sets no_sets refl
      (omega arith, (omega arith, tt))

sdp_extract_param_sets-ends_example :
    (r : Capture) × (sdp_extract_param_sets h264 (103 ∷ 66 ∷ []) no_sets ≡ some r)
    × ((r.0 ≡ true) ⊎ (r.1 ≡ no_sets))
    × ((sdp_params_complete h264 no_sets ≡ false) ⊎ (sdp_params_complete h264 r.1 ≡ true))
sdp_extract_param_sets-ends_example = sdp_extract_param_sets-ends h264 (103 ∷ 66 ∷ []) no_sets

-- An encoding for the runs.
abbrev encode : Bytes → Bytes
encode raw = ascii "Z0I="

encode-IsBase64 : IsBase64 encode
unfolding lacks
encode-IsBase64 raw = lacks-IsLine (ascii "Z0I=") refl

abbrev sets : ParamSets
sets = record { vps = []; sps = 103 ∷ 66 ∷ []; pps = 104 ∷ 206 ∷ [] }

sdp_build-read_lines_example :
    read_lines (sdp_build encode h264 (negsuc 0) (pos 5600) sets) false []
    ≡ some (all_lines encode h264 (negsuc 0) (pos 5600) sets)
sdp_build-read_lines_example =
    sdp_build-read_lines encode h264 (negsuc 0) (pos 5600) sets encode-IsBase64
