-- ===== src/RxFrame/Checks.antt =====
-- The checks of src/wifi/RxFrame.h stay within the frame, and what they check.
use open_prlx.Prelude.{
  ℕ, zero, suc, ap₂, ◌≤◌, ◌<◌, ◌≡◌, ◌↔◌, refl, ap, ◌∙◌, ◌==◌, ==_iff, Bool, true, false, Option,
  some, arith, length, get_or, get_elem?-some, ◌and_then◌, leb, ltb, not, take, drop, length-take,
  length-drop, Bool-cases, inl, inr, [], ◌∷◌, ltb→lt, ◌-◌,
}
use open_prlx.Wire.{Bytes}
use open_prlx.RxFrame.{
  matches_channel_id, same_at, is_valid_wfb_frame, payload_span, is_data_frame,
  has_valid_air_gnd_id, has_valid_radio_port,
}

-- A frame of the protocol: 24 bytes of header, 4 of trailer and a payload, of the type of a data
-- frame, the sender's and receiver's ids and ports the same.
pub record IsWfb (frame : Bytes) : Type 0 where
  pub long : 29 ≤ length frame
  pub type_0 : get_or frame 0 0 ≡ 8
  pub type_1 : get_or frame 1 0 ≡ 1
  pub id : get_or frame 10 0 ≡ get_or frame 16 0
  pub port : get_or frame 15 0 ≡ get_or frame 21 0

same_at-some :
    (xs : Bytes) (i : ℕ) (ys : Bytes) (j : ℕ)
    → i < length xs
    → j < length ys
    → same_at xs i ys j ≡ some (get_or xs i 0 == get_or ys j 0)
unfolding same_at
same_at-some xs i ys j p q = rw (get_elem?-some xs i 0 p, get_elem?-some ys j 0 q) refl

-- The outcome of a check: it reads within bounds, and it says whether `P` holds.
abbrev pub Decides : Type 0 → Option Bool → Type 0
Decides P o = (b : Bool) × (o ≡ some b) × ((b ≡ true) ↔ P)

Decides-leb : (n m : ℕ) → Decides (n ≤ m) (some (leb n m))
Decides-leb n m = (leb n m, refl, ground arith)

Decides-nonempty : (n : ℕ) → Decides (0 < n) (some (not (n == 0)))
Decides-nonempty n = (not (n == 0), refl, ground arith)

Decides-same :
    (xs : Bytes) (i : ℕ) (ys : Bytes) (j : ℕ)
    → i < length xs
    → j < length ys
    → Decides (get_or xs i 0 ≡ get_or ys j 0) (same_at xs i ys j)
Decides-same xs i ys j p q = (_, same_at-some xs i ys j p q, ==_iff (get_or xs i 0) (get_or ys j 0))

Decides-and :
    {P Q : Type 0} (o r : Option Bool)
    → Decides P o
    → (P → Decides Q r)
    → Decides (P × Q) (o and_then r)
Decides-and o r (false, e, f) next =
    (false, ap (λ x. x and_then r) e, ((λ h. absurd (cc h)), λ h. f.1 h.0))
Decides-and o r (true, e, f) next =
    let (b, q, g) = next (f.0 refl) in
    (b, ap (λ x. x and_then r) e ∙ q, ((λ h. (f.0 refl, g.0 h)), λ h. g.1 h.1))

abbrev head : Bytes → ℕ
head [] = 0
head (x ∷ xs) = x

abbrev tail : Bytes → Bytes
tail [] = []
tail (x ∷ xs) = xs

Decides-map : {P Q : Type 0} {o : Option Bool} → (P ↔ Q) → Decides P o → Decides Q o
Decides-map h (b, e, f) = (b, e, ((λ x. h.0 (f.0 x)), λ y. f.1 (h.1 y)))

payload_span-length : (frame : Bytes) → length (payload_span frame) ≡ length frame - 28
unfolding payload_span
payload_span-length frame = elim (Bool-cases (ltb (length frame) 28)) [
  | inl short ↦ rw short (omega (arith, ltb→lt (length frame) 28 short))
  | inr long ↦
      rw long (omega (arith, length-take (length frame - 28) (drop 24 frame), length-drop 24 frame))
]

-- What the checks ask, in their order.
checks-IsWfb :
    (frame : Bytes)
    → ((0 < length frame)
        × (((2 ≤ length frame) × ((get_or frame 0 0 ≡ 8) × (get_or frame 1 0 ≡ 1)))
            × ((0 < length (payload_span frame))
                × (((18 ≤ length frame) × (get_or frame 10 0 ≡ get_or frame 16 0))
                    × ((22 ≤ length frame) × (get_or frame 15 0 ≡ get_or frame 21 0))))))
      ↔ IsWfb frame
checks-IsWfb frame = (
  (λ (_, ((_, (t0, t1)), (p, ((_, i), (_, q))))). record {
    long = omega (arith, p, payload_span-length frame);
    type_0 = t0;
    type_1 = t1;
    id = i;
    port = q;
  }),
  (λ v. (
    omega (arith, v.long),
    (
      (omega (arith, v.long), (v.type_0, v.type_1)),
      (
        omega (arith, v.long, payload_span-length frame),
        ((omega (arith, v.long), v.id), (omega (arith, v.long), v.port)),
      ),
    ),
  )),
)

take-drop_cons :
    (xs : Bytes) (i n y : ℕ) (ys : Bytes)
    → i < length xs
    → ((get_or xs i 0 ≡ y) × (take n (drop (suc i) xs) ≡ ys)) ↔ (take (suc n) (drop i xs) ≡ y ∷ ys)
take-drop_cons [] i n y ys h = absurd (omega arith)
take-drop_cons (x ∷ xs) zero n y ys h = ((λ (e, q). ap₂ ◌∷◌ e q), λ e. (ap head e, ap tail e))
take-drop_cons (x ∷ xs) (suc i) n y ys h = take-drop_cons xs i n y ys (omega arith)

Decides-next :
    (frame : Bytes) (i n : ℕ) (zs : Bytes) (j : ℕ) (ys : Bytes) (r : Option Bool)
    → i < length frame
    → j < length zs
    → Decides (take n (drop (suc i) frame) ≡ ys) r
    → Decides (take (suc n) (drop i frame) ≡ get_or zs j 0 ∷ ys) (same_at frame i zs j and_then r)
Decides-next frame i n zs j ys r p q d =
    Decides-map (take-drop_cons frame i n (get_or zs j 0) ys p)
      (Decides-and _ r (Decides-same frame i zs j p q) (λ _. d))

Decides-last :
    (frame : Bytes) (i : ℕ) (zs : Bytes) (j : ℕ)
    → i < length frame
    → j < length zs
    → Decides (take 1 (drop i frame) ≡ get_or zs j 0 ∷ []) (same_at frame i zs j)
Decides-last frame i zs j p q =
    let iff = take-drop_cons frame i 0 (get_or zs j 0) [] p in
    Decides-map ((λ e. iff.0 (e, refl)), λ e. (iff.1 e).0) (Decides-same frame i zs j p q)

-- `IsValidWfbFrame` reads nothing past the end of the frame, whatever the frame's size, and it is
-- true exactly of the frames of the protocol.
pub is_valid_wfb_frame-IsWfb :
    (frame : Bytes) → (b : Bool) × (is_valid_wfb_frame frame ≡ some b) × ((b ≡ true) ↔ IsWfb frame)
unfolding is_valid_wfb_frame is_data_frame has_valid_air_gnd_id has_valid_radio_port
is_valid_wfb_frame-IsWfb frame = Decides-map (checks-IsWfb frame) (
    Decides-and _ _ (Decides-nonempty (length frame)) λ _.
      Decides-and _ _
        (Decides-and _ _ (Decides-leb 2 (length frame)) λ p.
          Decides-and _ _ (Decides-same frame 0 (8 ∷ 1 ∷ []) 0 (omega (arith, p)) (omega arith))
            λ _. Decides-same frame 1 (8 ∷ 1 ∷ []) 1 (omega (arith, p)) (omega arith))
        λ _. Decides-and _ _ (Decides-nonempty (length (payload_span frame))) λ _.
          Decides-and _ _
            (Decides-and _ _ (Decides-leb 18 (length frame))
              λ p. Decides-same frame 10 frame 16 (omega (arith, p)) (omega (arith, p)))
            λ _.
              Decides-and _ _ (Decides-leb 22 (length frame))
                λ p. Decides-same frame 15 frame 21 (omega (arith, p)) (omega (arith, p)))

-- On a frame of the protocol, `MatchesChannelID` reads nothing past the end, and it is true exactly
-- of the frames whose two addresses are 57:42 and the channel's id.
pub matches_channel_id-addresses :
    (frame : Bytes) (c0 c1 c2 c3 : ℕ)
    → IsWfb frame
    → (b : Bool) × (matches_channel_id frame (c0 ∷ c1 ∷ c2 ∷ c3 ∷ []) ≡ some b)
      × ((b ≡ true) ↔ (
          take 12 (drop 10 frame)
          ≡ 0x57 ∷ 0x42 ∷ c0 ∷ c1 ∷ c2 ∷ c3 ∷ 0x57 ∷ 0x42 ∷ c0 ∷ c1 ∷ c2 ∷ c3 ∷ []))
unfolding matches_channel_id
matches_channel_id-addresses frame c0 c1 c2 c3 v =
    (Decides-next frame 10 11 magic 0 _ _ (omega (arith, v.long)) (omega arith) (
      Decides-next frame 11 10 magic 1 _ _ (omega (arith, v.long)) (omega arith) (
        Decides-next frame 12 9 id 0 _ _ (omega (arith, v.long)) (omega arith) (
          Decides-next frame 13 8 id 1 _ _ (omega (arith, v.long)) (omega arith) (
            Decides-next frame 14 7 id 2 _ _ (omega (arith, v.long)) (omega arith) (
              Decides-next frame 15 6 id 3 _ _ (omega (arith, v.long)) (omega arith) (
                Decides-next frame 16 5 magic 0 _ _ (omega (arith, v.long)) (omega arith) (
                  Decides-next frame 17 4 magic 1 _ _ (omega (arith, v.long)) (omega arith) (
                    Decides-next frame 18 3 id 0 _ _ (omega (arith, v.long)) (omega arith) (
                      Decides-next frame 19 2 id 1 _ _ (omega (arith, v.long)) (omega arith) (
                        Decides-next frame 20 1 id 2 _ _ (omega (arith, v.long)) (omega arith) (
                          Decides-last frame 21 id 3 (omega (arith, v.long))
                            (omega arith)))))))))))))
  where
    magic : Bytes
    magic = 0x57 ∷ 0x42 ∷ []

    id : Bytes
    id = c0 ∷ c1 ∷ c2 ∷ c3 ∷ []
