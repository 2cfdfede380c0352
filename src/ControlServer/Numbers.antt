-- ===== src/ControlServer/Numbers.antt =====
-- The numbers that src/ControlServer.h reads with strtol are those that std::to_string prints.
use open_prlx.Prelude.{
  ℕ, suc, ◌+◌, ◌-◌, ◌*◌, ◌^◌, ◌<◌, ◌≡◌, ap, sym, ◌∙◌, if_true, if_false, leb, min, ◌==◌, ◌||◌, ◌&&◌,
  Bool, true, false, if◌then◌else◌, some, [], ◌∷◌, ◌++◌, All, IsDigit, decimal, decimal-value,
  decimal-cons, decimal-IsDigit, to_string, ℤ, pos, negsuc, sub_ℕ, arith,
}
use open_prlx.Wire.{Bytes}
use open_prlx.ControlServer.Text.{
  is_digit, is_blank, digits, skip_space, skip_blanks, number, signed,
}

is_digit-IsDigit : (c : ℕ) → IsDigit c → is_digit c ≡ true
unfolding is_digit
is_digit-IsDigit c h = ground (arith, h.0, h.1)

digits-snoc :
    (acc : ℕ) (xs : Bytes) (d : ℕ)
    → All IsDigit xs
    → d < 10
    → digits acc (xs ++ ((48 + d) ∷ [])) ≡ digits acc xs * 10 + d
unfolding digits
digits-snoc acc [] d h low =
    if_true _ acc (is_digit-IsDigit (48 + d) (omega arith, omega arith)) ∙ omega arith
digits-snoc acc (c ∷ xs) d h low =
    let here = is_digit-IsDigit c h.0 in
    if_true _ acc here
    ∙ digits-snoc (acc * 10 + (c - 48)) xs d h.1 low
    ∙ ap (λ n. n * 10 + d) (sym (if_true (digits (acc * 10 + (c - 48)) xs) acc here))

digits-decimal : (n : ℕ) → digits 0 (decimal n) ≡ n
unfolding digits
digits-decimal n =
    decimal-value (digits 0)
      (λ d low.
        if_true (0 * 10 + (48 + d - 48)) 0
          (is_digit-IsDigit (48 + d) (omega (arith, low), omega (arith, low)))
        ∙ omega arith)
      (λ xs d h low. digits-snoc 0 xs d h low) n

-- The digits up to a byte that is none.
digits-stop :
    (acc : ℕ) (xs : Bytes) (e : ℕ) (t : Bytes)
    → All IsDigit xs
    → is_digit e ≡ false
    → digits acc (xs ++ (e ∷ t)) ≡ digits acc xs
unfolding digits
digits-stop acc [] e t h stop = if_false (digits (acc * 10 + (e - 48)) t) acc stop
digits-stop acc (c ∷ xs) e t h stop =
    let here = is_digit-IsDigit c h.0 in
    if_true _ acc here
    ∙ digits-stop (acc * 10 + (c - 48)) xs e t h.1 stop
    ∙ sym (if_true (digits (acc * 10 + (c - 48)) xs) acc here)

-- What is read of a number, with its sign or without, before a byte that is no digit.
number-decimal :
    (minus : Bool) (n e : ℕ) (t : Bytes)
    → is_digit e ≡ false
    → number minus (decimal n ++ (e ∷ t))
      ≡ some (if minus then sub_ℕ 0 (min n (2 ^ 31)) else pos (min n (2 ^ 31 - 1)))
unfolding number
number-decimal minus n e t stop =
    let (c, s, q, h) = decimal-cons n in
    ap (λ l. number minus (l ++ (e ∷ t))) q
    ∙ if_true (some (value (digits 0 (c ∷ (s ++ (e ∷ t)))))) _ (is_digit-IsDigit c h)
    ∙ ap (λ m. some (value m))
        (ap (λ l. digits 0 (l ++ (e ∷ t))) (sym q)
          ∙ digits-stop 0 (decimal n) e t (decimal-IsDigit n) stop
          ∙ digits-decimal n)
  where
    value : ℕ → ℤ
    value m = if minus then sub_ℕ 0 (min m (2 ^ 31)) else pos (min m (2 ^ 31 - 1))

-- An `int` of 32 bits.
abbrev pub IsInt : ℤ → Type 0
IsInt (pos n) = n < 2 ^ 31
IsInt (negsuc n) = n < 2 ^ 31

signed-decimal :
    (n e : ℕ) (t : Bytes)
    → n < 2 ^ 31
    → is_digit e ≡ false
    → signed (skip_space (skip_blanks (decimal n ++ (e ∷ t)))) ≡ some (pos n)
unfolding signed skip_space skip_blanks is_blank
signed-decimal n e t h stop =
    let (c, s, q, d) = decimal-cons n in
    let more = s ++ (e ∷ t) in
    ap (λ l. signed (skip_space (skip_blanks (l ++ (e ∷ t))))) q
    ∙ ap (λ l. signed (skip_space l))
        (if_false {b = (c == 32) || (c == 9)} (skip_blanks more) (c ∷ more)
          (ground (arith, d.0, d.1)))
    ∙ ap signed (
        if_false {b = (c == 32) || (leb 9 c && leb c 13)} (skip_space more) (c ∷ more)
          (ground (arith, d.0, d.1)))
    ∙ if_false {b = c == 45} (number true more) _ (ground (arith, d.0))
    ∙ if_false {b = c == 43} (number false more) _ (ground (arith, d.0))
    ∙ ap (λ l. number false (l ++ (e ∷ t))) (sym q)
    ∙ number-decimal false n e t stop
    ∙ ap (λ m. some (pos m)) (omega (arith, h))

-- An `int` that std::to_string prints is read by strtol as what it was, after blanks and up to a byte
-- that is no digit.
pub signed-to_string :
    (z : ℤ) (e : ℕ) (t : Bytes)
    → IsInt z
    → is_digit e ≡ false
    → signed (skip_space (skip_blanks (to_string z ++ (e ∷ t)))) ≡ some z
unfolding to_string signed skip_space skip_blanks is_blank
signed-to_string (pos n) e t h stop = signed-decimal n e t h stop
signed-to_string (negsuc n) e t h stop =
    number-decimal true (suc n) e t stop
    ∙ ap (λ m. some (sub_ℕ 0 m)) at_most
    ∙ ap some (if_false {b = leb (suc n) 0} (pos (0 - suc n)) _ (ground arith))
    ∙ ap (λ m. some (negsuc m)) one_less
  where
    at_most : min (suc n) (2 ^ 31) ≡ suc n
    at_most = omega (arith, h)

    one_less : suc n - 0 - 1 ≡ n
    one_less = omega arith
