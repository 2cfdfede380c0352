-- ===== src/WfbReceiver/Dongles/Named.antt =====
-- The name that `GetDongleList` of src/wifi/WFBReceiver.cpp gives an adapter is read by `Start`.
use open_prlx.Prelude.{
  ℕ, ◌+◌, ◌*◌, ◌/◌, ◌%◌, ◌^◌, ◌<◌, ◌≡◌, refl, ap, ap₂, ◌∙◌, ◌==◌, ◌&&◌, ◌||◌, not, if◌then◌else◌,
  if_true, if_false, Bool-cases, inl, inr, ◌≢◌, ◌≤◌, ◌-◌, ltb, leb, Bool, true, false, Option, none,
  some, [], ◌∷◌, ◌++◌, ◌>>=◌, arith,
}
use open_prlx.Wire.{Bytes}
use open_prlx.ControlServer.Text.{skip_space}
use open_prlx.WfbReceiver.Dongles.{
  Descriptor, hex_digit, hex4, name_of, hex_value, hex_digits, skip_prefix, read_digits, read_hex,
  product_at, read_product, read_vid_pid,
}

hex_value-hex_digit : (d : ℕ) → d < 16 → hex_value (hex_digit d) ≡ some d
hex_value-hex_digit d h = elim (Bool-cases (ltb d 10)) [
  | inl small ↦ rw small (
      if_true {b = leb 48 (48 + d) && leb (48 + d) 57} (some (48 + d - 48)) _
        (ground (arith, small))
      ∙ ap some (low small))
  | inr large ↦ rw large (
      if_false {b = leb 48 (87 + d) && leb (87 + d) 57} (some (87 + d - 48)) _
        (ground (arith, large))
      ∙ if_false {b = leb 65 (87 + d) && leb (87 + d) 70} (some (87 + d - 55)) _
          (ground (arith, large))
      ∙ if_true {b = leb 97 (87 + d) && leb (87 + d) 102} (some (87 + d - 87)) none
          (ground (arith, large, h))
      ∙ ap some (high large))
]
  where
    low : ltb d 10 ≡ true → 48 + d - 48 ≡ d
    low small = omega arith

    high : ltb d 10 ≡ false → 87 + d - 87 ≡ d
    high large = omega arith

hex_digits-step :
    (n c d : ℕ) (s : Bytes)
    → hex_value c ≡ some d
    → hex_digits n (c ∷ s) ≡ hex_digits (n * 16 + d) s
unfolding hex_digits
hex_digits-step n c d s e =
    ap (λ o. elim o as (λ _. ℕ × Bytes) [ none ↦ (n, c ∷ s) | some d ↦ hex_digits (n * 16 + d) s ])
      e

hex_digits-hex4 :
    (n : ℕ) (s : Bytes)
    → n < 2 ^ 16
    → ((m : ℕ) → hex_digits m s ≡ (m, s))
    → hex_digits 0 (hex4 n ++ s) ≡ (n, s)
hex_digits-hex4 n s h stop =
    let a = n / 4096 % 16 in
    let b = n / 256 % 16 in
    let c = n / 16 % 16 in
    let d = n % 16 in
    let whole : (((0 * 16 + a) * 16 + b) * 16 + c) * 16 + d ≡ n = omega (arith, h) in
    hex_digits-step 0 (hex_digit a) a _ (hex_value-hex_digit a (omega arith))
    ∙ hex_digits-step (0 * 16 + a) (hex_digit b) b _ (hex_value-hex_digit b (omega arith))
    ∙ hex_digits-step ((0 * 16 + a) * 16 + b) (hex_digit c) c _
        (hex_value-hex_digit c (omega arith))
    ∙ hex_digits-step (((0 * 16 + a) * 16 + b) * 16 + c) (hex_digit d) d s
        (hex_value-hex_digit d (omega arith))
    ∙ stop ((((0 * 16 + a) * 16 + b) * 16 + c) * 16 + d)
    ∙ ap (λ m. (m, s)) whole

-- The first letter of a name is no blank, sign or part of a prefix.
hex_digit-range : (d : ℕ) → d < 16 → (48 ≤ hex_digit d) × (hex_digit d ≤ 102) × (hex_digit d ≢ 88)
hex_digit-range d h = by_case (ltb d 10) refl
  where
    by_case :
        (b : Bool)
        → ltb d 10 ≡ b
        → (48 ≤ (if b then 48 + d else 87 + d))
          × ((if b then 48 + d else 87 + d) ≤ 102)
          × ((if b then 48 + d else 87 + d) ≢ 88)
    by_case true e = (omega arith, ground (arith, e), λ f. ground (arith, e, f))
    by_case false e = (omega arith, omega (arith, h), λ f. ground (arith, e, f))

read_hex-hex4 :
    (n : ℕ) (s : Bytes)
    → n < 2 ^ 16
    → ((m : ℕ) → hex_digits m s ≡ (m, s))
    → read_hex (hex4 n ++ s) ≡ (true, n, s)
unfolding read_hex skip_prefix
read_hex-hex4 n s h stop =
    let a = hex_digit (n / 4096 % 16) in
    let b = hex_digit (n / 256 % 16) in
    let (a_low, a_high, a_ne) = hex_digit-range (n / 4096 % 16) (omega arith) in
    let (b_low, b_high, b_ne) = hex_digit-range (n / 256 % 16) (omega arith) in
    let prefix : ((a == 48) && ((b == 120) || (b == 88))) ≡ false = ground (arith, b_high, b_ne) in
    let fits : ltb n (2 ^ 32) ≡ true = ground (arith, h) in
    if_false {b = a == 45} _ _ (ground (arith, a_low))
    ∙ if_false {b = a == 43} _ _ (ground (arith, a_low))
    ∙ ap (read_digits (λ n. n)) (if_false _ _ prefix)
    ∙ ap₂ result
        (ap (λ o. elim o as (λ _. Bool) [ none ↦ false | some d ↦ true ])
          (hex_value-hex_digit (n / 4096 % 16) (omega arith)))
        (hex_digits-hex4 n s h stop)
    ∙ if_true (true, n, s) (false, 2 ^ 32 - 1, s) fits
  where
    result : Bool → ℕ × Bytes → Bool × ℕ × Bytes
    result good (m, rest) =
        if not good
        then (false, 0, rest)
        else if ltb m (2 ^ 32)
        then (true, m, rest)
        else (false, 2 ^ 32 - 1, rest)

skip_space-hex4 : (n : ℕ) (s : Bytes) → skip_space (hex4 n ++ s) ≡ hex4 n ++ s
unfolding skip_space
skip_space-hex4 n s =
    let (low, high, ne) = hex_digit-range (n / 4096 % 16) (omega arith) in
    let c = hex_digit (n / 4096 % 16) in
    if_false {b = (c == 32) || (leb 9 c && leb c 13)} _ _ (ground (arith, low))

product_at-hex4 : (n : ℕ) → n < 2 ^ 16 → product_at (hex4 n) ≡ some n
unfolding hex_digits
product_at-hex4 n h = ap (λ r. some r.1) (read_hex-hex4 n [] h (λ m. refl))

-- The name that `GetDongleList` gives an adapter with ids of 16 bits is read by `Start` as just these
-- ids, with which the adapter is opened.
pub read_vid_pid-name_of :
    (d : Descriptor)
    → d.id_vendor < 2 ^ 16
    → d.id_product < 2 ^ 16
    → read_vid_pid (name_of d) ≡ some (d.id_vendor, d.id_product)
unfolding read_vid_pid name_of hex_digits skip_space
read_vid_pid-name_of d v p =
    let product = hex4 d.id_product in
    ap (λ s. read (read_hex s)) (skip_space-hex4 d.id_vendor (58 ∷ product))
    ∙ ap read (read_hex-hex4 d.id_vendor (58 ∷ product) v (λ m. refl))
    ∙ ap (λ s. product_at s >>= pair d.id_vendor) (skip_space-hex4 d.id_product [])
    ∙ ap (λ o. o >>= pair d.id_vendor) (product_at-hex4 d.id_product p)
    ∙ ap some (ap₂ (λ x y. (x, y)) small_vendor small_product)
  where
    pair : ℕ → ℕ → Option (ℕ × ℕ)
    pair vendor product = some (vendor % 2 ^ 16, product % 2 ^ 16)

    read : Bool × ℕ × Bytes → Option (ℕ × ℕ)
    read (good, vendor, rest) =
        if not good then none else (read_product (skip_space rest) >>= pair vendor)

    small_vendor : d.id_vendor % 2 ^ 16 ≡ d.id_vendor
    small_vendor = omega (arith, v)

    small_product : d.id_product % 2 ^ 16 ≡ d.id_product
    small_product = omega (arith, p)
