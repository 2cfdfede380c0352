-- ===== src/Prelude/Reads.antt =====
-- Reads that may be out of bounds, which the language leaves undefined: they give `none`.
use Prim.Native.Nat.{ℕ, zero, suc, ◌+◌, ◌<◌, ◌≤◌}
use open_prlx.Prelude.Tests.{leb, if◌then◌else◌, if_true, le→leb}
use mathlib.Core.Path.{◌≡◌, refl}
use mathlib.Core.Bool.{Bool, true, false}
use mathlib.Core.List.{List, [], ◌∷◌}
use mathlib.Core.Option.{Option, none, some}
use native.Mathlib.Omega.{arith}
use open_prlx.Prelude.Lists.{length, get_elem?, get_or, take, drop}

infixl 1 ◌>>=◌
abbrev pub ◌>>=◌ {ℓ ℓ'} : {A : Type ℓ} {B : Type ℓ'} → Option A → (A → Option B) → Option B
none >>= f = none
some a >>= f = f a

-- `&&` of the language: the right side is evaluated only if the left one is true.
infixr 30 ◌and_then◌
abbrev pub ◌and_then◌ : Option Bool → Option Bool → Option Bool
none and_then b = none
some false and_then b = some false
some true and_then b = b

pub get_elem?-some {ℓ} :
    {A : Type ℓ} (xs : List A) (i : ℕ) (d : A)
    → i < length xs
    → get_elem? xs i ≡ some (get_or xs i d)
get_elem?-some [] i d h = absurd (omega arith)
get_elem?-some (x ∷ xs) zero d h = refl
get_elem?-some (x ∷ xs) (suc i) d h = get_elem?-some xs i d (omega arith)

-- The `n` elements from the `i`-th on, all of which have to be there.
unfoldable pub slice? {ℓ} : {A : Type ℓ} → List A → ℕ → ℕ → Option (List A)
slice? xs i n = if leb (i + n) (length xs) then some (take n (drop i xs)) else none

pub slice?-some {ℓ} :
    {A : Type ℓ} (xs : List A) (i n : ℕ)
    → i + n ≤ length xs
    → slice? xs i n ≡ some (take n (drop i xs))
unfolding slice?
slice?-some xs i n h = if_true (some (take n (drop i xs))) none (le→leb (i + n) (length xs) h)
