-- ===== src/Prelude/Text.antt =====
-- The bytes of a literal text in ASCII, and of a number.
use Prim.Native.Nat.{ℕ, zero, suc, ◌+◌, ◌*◌, ◌/◌, ◌%◌, ◌≤◌, ◌<◌}
use Prim.Native.Char.{code}
use Prim.Native.String
use mathlib.Core.Path.{◌≡◌, refl, ◌∙◌}
use mathlib.Core.Logic.{inl, inr}
use mathlib.Core.List.{List, [], ◌∷◌, ◌++◌}
use native.Mathlib.Omega.{arith}
use open_prlx.Prelude.Tests.{ltb, if◌then◌else◌, if_true, if_false, Bool-cases}
use open_prlx.Prelude.Lists.{All, All-append}
use open_prlx.Prelude.Int.{ℤ, pos, negsuc}

abbrev pub ascii : String.String → List ℕ
ascii String.[] = []
ascii (String.◌∷◌ c s) = code c ∷ ascii s

-- The texts, before a last one.
abbrev pub append_all : List (List ℕ) → List ℕ → List ℕ
append_all [] last = last
append_all (x ∷ xs) last = x ++ append_all xs last

-- `std::to_string` of a number: its digits, of which it has fewer than it counts.
abbrev digit_rounds : ℕ → ℕ → List ℕ
digit_rounds zero n = []
digit_rounds (suc fuel) n =
    let rest = digit_rounds fuel (n / 10) in
    if ltb n 10 then (48 + n) ∷ [] else rest ++ ((48 + n % 10) ∷ [])

unfoldable pub decimal : ℕ → List ℕ
decimal n = digit_rounds (suc n) n

unfoldable pub to_string : ℤ → List ℕ
to_string (pos n) = decimal n
to_string (negsuc n) = 45 ∷ decimal (suc n)

-- A digit in ASCII.
abbrev pub IsDigit : ℕ → Type 0
IsDigit c = (48 ≤ c) × (c ≤ 57)

digit_rounds-IsDigit : (fuel n : ℕ) → All IsDigit (digit_rounds fuel n)
digit_rounds-IsDigit zero n = tt
digit_rounds-IsDigit (suc fuel) n = elim (Bool-cases (ltb n 10)) [
  | inl small ↦ rw small ((omega arith, ground (arith, small)), tt)
  | inr large ↦ rw large (
      All-append IsDigit (digit_rounds fuel (n / 10)) ((48 + n % 10) ∷ [])
        (digit_rounds-IsDigit fuel (n / 10)) ((omega arith, omega arith), tt))
]

pub decimal-IsDigit : (n : ℕ) → All IsDigit (decimal n)
unfolding decimal
decimal-IsDigit n = digit_rounds-IsDigit (suc n) n

-- A reading of digits that takes each one after what was before it reads the number.
pub decimal-value :
    (read : List ℕ → ℕ)
    → ((d : ℕ) → d < 10 → read ((48 + d) ∷ []) ≡ d)
    → ((xs : List ℕ) (d : ℕ)
        → All IsDigit xs
        → d < 10
        → read (xs ++ ((48 + d) ∷ [])) ≡ read xs * 10 + d)
    → (n : ℕ) → read (decimal n) ≡ n
unfolding decimal
decimal-value read one more n = go (suc n) n (omega arith)
  where
    go : (fuel m : ℕ) → m < fuel → read (digit_rounds fuel m) ≡ m
    go zero m h = absurd (omega arith)
    go (suc fuel) m h = elim (Bool-cases (ltb m 10)) [
      | inl small ↦ rw small (one m (ground (arith, small)))
      | inr large ↦
          let ih = go fuel (m / 10) (ground (arith, large)) in
          rw large (
            more (digit_rounds fuel (m / 10)) (m % 10) (digit_rounds-IsDigit fuel (m / 10))
              (omega arith)
            ∙ omega (arith, ih))
    ]

-- A number has a first digit.
pub decimal-cons : (n : ℕ) → (c : ℕ) × (s : List ℕ) × (decimal n ≡ c ∷ s) × IsDigit c
unfolding decimal
decimal-cons n = elim (Bool-cases (ltb n 10)) [
  | inl small ↦ (48 + n, [], if_true _ _ small, (omega arith, ground (arith, small)))
  | inr large ↦
      let (c, s, e, d) =
        first (digit_rounds n (n / 10)) (48 + n % 10) (digit_rounds-IsDigit n (n / 10))
          (omega arith, omega arith) in
      (c, s, if_false _ _ large ∙ e, d)
]
  where
    first :
        (xs : List ℕ) (y : ℕ)
        → All IsDigit xs
        → IsDigit y
        → (c : ℕ) × (s : List ℕ) × (xs ++ (y ∷ []) ≡ c ∷ s) × IsDigit c
    first [] y h d = (y, [], refl, d)
    first (x ∷ xs) y h d = (x, xs ++ (y ∷ []), refl, h.0)
