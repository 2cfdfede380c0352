-- ===== src/Prelude/LineText.antt =====
-- Texts of lines that each end with a carriage return and a line feed.
use Prim.Native.Nat.{ℕ, suc}
use mathlib.Core.Path.{◌≡◌, refl, ap, sym, ◌∙◌}
use mathlib.Core.Logic.{◌≢◌, inl, inr}
use mathlib.Core.Bool.{Bool, true, false}
use mathlib.Core.List.{List, [], ◌∷◌, ◌++◌}
use native.Mathlib.Omega.{arith}
use open_prlx.Prelude.Tests.{◌==◌, if◌then◌else◌, if_true, if_false, Bool-cases}
use open_prlx.Prelude.Lists.{All, All-append, append_assoc}
use open_prlx.Prelude.Int.{ℤ, pos, negsuc}
use open_prlx.Prelude.Text.{append_all, decimal, decimal-IsDigit, to_string, IsDigit}

-- A text of lines that each end with a carriage return and a line feed.
abbrev pub print_lines : List (List ℕ) → List ℕ
print_lines [] = []
print_lines (l ∷ ls) = l ++ (13 ∷ 10 ∷ print_lines ls)

abbrev pub IsLine : List ℕ → Type 0
IsLine l = All (λ c. c ≢ 13) l

-- No literal of the text has a carriage return within a line.
unfoldable pub lacks : List ℕ → Bool
lacks [] = true
lacks (c ∷ s) = if c == 13 then false else lacks s

pub lacks-IsLine : (s : List ℕ) → lacks s ≡ true → IsLine s
unfolding lacks
lacks-IsLine [] e = tt
lacks-IsLine (c ∷ s) e = elim (Bool-cases (c == 13)) [
  | inl cr ↦ absurd (cc (e, if_true false (lacks s) cr))
  | inr other ↦ (
    (λ same. ground (arith, same, other)),
    lacks-IsLine s (sym (if_false false (lacks s) other) ∙ e),
  )
]

pub digits-IsLine : (s : List ℕ) → All IsDigit s → IsLine s
digits-IsLine [] h = tt
digits-IsLine (c ∷ s) h = ((λ e. absurd (omega (arith, e, h.0))), digits-IsLine s h.1)

pub to_string-IsLine : (z : ℤ) → IsLine (to_string z)
unfolding to_string
to_string-IsLine (pos n) = digits-IsLine (decimal n) (decimal-IsDigit n)
to_string-IsLine (negsuc n) =
    ((λ e. absurd (omega (arith, e))), digits-IsLine (decimal (suc n)) (decimal-IsDigit (suc n)))

IsLine-append : (xs ys : List ℕ) → IsLine xs → IsLine ys → IsLine (xs ++ ys)
IsLine-append xs ys h k = All-append (λ c. c ≢ 13) xs ys h k

pub append_all-append :
    (xs : List (List ℕ)) (y z : List ℕ) → append_all xs y ++ z ≡ append_all xs (y ++ z)
append_all-append [] y z = refl
append_all-append (x ∷ xs) y z =
    append_assoc x (append_all xs y) z ∙ ap (λ l. x ++ l) (append_all-append xs y z)

pub IsLine-append_all :
    (xs : List (List ℕ)) (y : List ℕ) → All IsLine xs → IsLine y → IsLine (append_all xs y)
IsLine-append_all [] y h k = k
IsLine-append_all (x ∷ xs) y h k =
    IsLine-append x (append_all xs y) h.0 (IsLine-append_all xs y h.1 k)
