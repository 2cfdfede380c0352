-- ===== src/Sdp/Walk.antt =====
-- Aggregation packets (STAP-A of RFC 6184, AP of RFC 7798): what `walkAggregation` takes out is what
-- was put in.
use open_prlx.Prelude.{
  slice?, slice?-some, ℕ, zero, suc, ◌+◌, ◌*◌, ◌/◌, ◌%◌, ◌≤◌, ◌<◌, ◌≡◌, refl, ap, sym, ◌∙◌, ◌==◌,
  ==_iff, ◌||◌, ltb, leb, true, false, some, List, [], ◌∷◌, ◌++◌, take, drop, length, length-append,
  length-drop, get_elem?, arith,
}
use open_prlx.Wire.{Bytes}
use open_prlx.Context.{Codec, auto, h264, h265, ParamSets}
use open_prlx.Sdp.{
  Capture, capture, walk_aggregation, extract_h264, extract_h265, sdp_extract_param_sets,
}

-- The body of an aggregation packet: each NAL unit after its size, in two bytes.
abbrev pub pack : List Bytes → Bytes
pack [] = []
pack (nal ∷ nals) = (length nal / 256) ∷ (length nal % 256) ∷ (nal ++ pack nals)

-- No NAL unit is empty.
abbrev pub AreNals : List Bytes → Type 0
AreNals [] = Unit
AreNals (nal ∷ nals) = (0 < length nal) × AreNals nals

-- The NAL units, offered as parameter sets in turn.
abbrev pub capture_all : Codec → Capture → List Bytes → Capture
capture_all codec acc [] = acc
capture_all codec acc (nal ∷ nals) = capture_all codec (capture codec acc nal) nals

zero_add : (i : ℕ) → 0 + i ≡ i
zero_add i = omega arith

suc_add : (n i : ℕ) → suc n + i ≡ suc (n + i)
suc_add n i = omega arith

module _ {ℓ} {A : Type ℓ} where
  get_elem?-drop : (xs : List A) (off i : ℕ) → get_elem? xs (off + i) ≡ get_elem? (drop off xs) i
  get_elem?-drop xs zero i = ap (get_elem? xs) (zero_add i)
  get_elem?-drop [] (suc off) i = refl
  get_elem?-drop (x ∷ xs) (suc off) i =
      ap (get_elem? (x ∷ xs)) (suc_add off i) ∙ get_elem?-drop xs off i

  drop_nil : (n : ℕ) → drop {A = A} n [] ≡ []
  drop_nil zero = refl
  drop_nil (suc n) = refl

  drop-drop : (xs : List A) (off i : ℕ) → drop (off + i) xs ≡ drop i (drop off xs)
  drop-drop xs zero i = ap (λ l. drop l xs) (zero_add i)
  drop-drop [] (suc off) i = drop_nil (suc off + i) ∙ sym (drop_nil i)
  drop-drop (x ∷ xs) (suc off) i = ap (λ l. drop l (x ∷ xs)) (suc_add off i) ∙ drop-drop xs off i

  take_append : (xs ys : List A) → take (length xs) (xs ++ ys) ≡ xs
  take_append [] ys = refl
  take_append (x ∷ xs) ys = ap (λ l. x ∷ l) (take_append xs ys)

  drop_append : (xs ys : List A) → drop (length xs) (xs ++ ys) ≡ ys
  drop_append [] ys = refl
  drop_append (x ∷ xs) ys = drop_append xs ys

walk_aggregation-pack :
    (fuel : ℕ) (codec : Codec) (p : Bytes) (off : ℕ) (acc : Capture) (nals : List Bytes)
    → 0 < fuel
    → length p < off + fuel
    → off ≤ length p
    → drop off p ≡ pack nals
    → AreNals nals
    → walk_aggregation fuel codec p off acc ≡ some (capture_all codec acc nals)
unfolding walk_aggregation
walk_aggregation-pack zero codec p off acc nals some_left enough inside body are =
    absurd (omega (arith, some_left))
walk_aggregation-pack (suc fuel) codec p off acc [] some_left enough inside body are = rw over refl
  where
    over : leb (off + 2) (length p) ≡ false
    over = ground (arith, length-drop off p, ap length body, inside)
walk_aggregation-pack (suc fuel) codec p off acc (nal ∷ nals) some_left enough inside body
      (some_size, are) =
    rw (more, high, low, size, good, unit)
      (walk_aggregation-pack fuel codec p (off + 2 + length nal) (capture codec acc nal) nals
        (omega (arith, whole, enough, some_size)) (omega (arith, whole, enough, some_size))
        (omega (arith, whole)) rest are)
  where
    whole : off + 2 + length nal + length (pack nals) ≡ length p
    whole = omega (arith, length-drop off p, ap length body, length-append nal (pack nals), inside)

    more : leb (off + 2) (length p) ≡ true
    more = ground (arith, whole)

    high : get_elem? p off ≡ some (length nal / 256)
    high = ap (get_elem? p) (omega arith) ∙ get_elem?-drop p off 0 ∙ ap (λ l. get_elem? l 0) body

    low : get_elem? p (off + 1) ≡ some (length nal % 256)
    low = get_elem?-drop p off 1 ∙ ap (λ l. get_elem? l 1) body

    size : length nal / 256 * 256 + length nal % 256 ≡ length nal
    size = omega arith

    good : ((length nal == 0) || ltb (length p) (off + 2 + length nal)) ≡ false
    good = ground (arith, whole, some_size)

    tail : drop (off + 2) p ≡ nal ++ pack nals
    tail = drop-drop p off 2 ∙ ap (drop 2) body

    unit : slice? p (off + 2) (length nal) ≡ some nal
    unit =
        slice?-some p (off + 2) (length nal) (omega (arith, whole))
        ∙ ap (λ l. some (take (length nal) l)) tail
        ∙ ap some (take_append nal (pack nals))

    rest : drop (off + 2 + length nal) p ≡ pack nals
    rest =
        drop-drop p (off + 2) (length nal)
        ∙ ap (drop (length nal)) tail
        ∙ drop_append nal (pack nals)

-- The payload header of an aggregation packet.
abbrev pub IsHeader : Codec → Bytes → Type 0
IsHeader h264 (b ∷ []) = b % 32 ≡ 24
IsHeader h265 (b ∷ c ∷ []) = b / 2 % 64 ≡ 48
IsHeader codec header = ⊥

-- From an aggregation packet of H.264 or of H.265 that carries NAL units, none of them empty,
-- `sdpExtractParamSets` offers exactly these units as parameter sets, each once and in their order.
pub sdp_extract_param_sets-pack :
    (codec : Codec) (header : Bytes) (nals : List Bytes) (sets : ParamSets)
    → IsHeader codec header
    → AreNals nals
    → sdp_extract_param_sets codec (header ++ pack nals) sets
      ≡ some (capture_all codec (false, sets) nals)
unfolding sdp_extract_param_sets extract_h264 extract_h265
sdp_extract_param_sets-pack auto header nals sets h are = absurd h
sdp_extract_param_sets-pack h264 [] nals sets h are = absurd h
sdp_extract_param_sets-pack h264 (b ∷ []) nals sets h are = rw ((==_iff (b % 32) 24).1 h) (
    walk_aggregation-pack (suc (length (pack nals))) h264 (b ∷ pack nals) 1 (false, sets) nals
      (omega arith) (omega arith) (omega arith) refl are)
sdp_extract_param_sets-pack h264 (b ∷ c ∷ header) nals sets h are = absurd h
sdp_extract_param_sets-pack h265 [] nals sets h are = absurd h
sdp_extract_param_sets-pack h265 (b ∷ []) nals sets h are = absurd h
sdp_extract_param_sets-pack h265 (b ∷ c ∷ []) nals sets h are =
    rw (long, (==_iff (b / 2 % 64) 48).1 h)
      (walk_aggregation-pack (suc (suc (length (pack nals)))) h265 (b ∷ c ∷ pack nals) 2
        (false, sets) nals (omega arith) (omega arith) (omega arith) refl are)
  where
    long : ltb (suc (suc (length (pack nals)))) 2 ≡ false
    long = ground arith
sdp_extract_param_sets-pack h265 (b ∷ c ∷ d ∷ header) nals sets h are = absurd h
