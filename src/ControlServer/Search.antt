-- ===== src/ControlServer/Search.antt =====
-- The searches for one byte in a text, as src/ControlServer.h makes them.
use open_prlx.Prelude.{
  ℕ, suc, ◌+◌, ◌≡◌, ◌≢◌, refl, ap, ◌∙◌, subst, ◌==◌, ◌&&◌, true, none, some, [], ◌∷◌, ◌++◌, take,
  drop, length, All, arith, if_true, if_false,
}
use open_prlx.Wire.{Bytes}
use open_prlx.ControlServer.Text.{find_in}

abbrev pub Lacks : ℕ → Bytes → Type 0
Lacks c xs = All (λ x. x ≢ c) xs

-- A search for one byte finds the first.
pub find_in_first :
    (c : ℕ) (xs ys : Bytes) (i : ℕ)
    → Lacks c xs
    → find_in (c ∷ []) (xs ++ (c ∷ ys)) i ≡ some (i + length xs)
find_in_first c [] ys i h =
    if_true {b = (c == c) && true} (some i) _ (ground arith) ∙ ap some add_zero
  where
    add_zero : i ≡ i + 0
    add_zero = omega arith
find_in_first c (x ∷ xs) ys i h =
    if_false {b = (x == c) && true} (some i) _ (ground (arith, h.0))
    ∙ find_in_first c xs ys (i + 1) h.1
    ∙ ap some add_suc
  where
    add_suc : i + 1 + length xs ≡ i + suc (length xs)
    add_suc = omega arith

pub find_first :
    (c : ℕ) (xs ys : Bytes) → Lacks c xs → find_in (c ∷ []) (xs ++ (c ∷ ys)) 0 ≡ some (length xs)
find_first c xs ys h = find_in_first c xs ys 0 h ∙ ap some zero_add
  where
    zero_add : 0 + length xs ≡ length xs
    zero_add = omega arith

pub find_in-none : (c : ℕ) (xs : Bytes) (i : ℕ) → Lacks c xs → find_in (c ∷ []) xs i ≡ none
find_in-none c [] i h = refl
find_in-none c (x ∷ xs) i h =
    if_false {b = (x == c) && true} (some i) _ (ground (arith, h.0)) ∙ find_in-none c xs (i + 1) h.1

pub take_self : (xs ys : Bytes) → take (length xs) (xs ++ ys) ≡ xs
take_self [] ys = refl
take_self (x ∷ xs) ys = ap (λ l. x ∷ l) (take_self xs ys)

pub drop_past : (xs : Bytes) (y : ℕ) (ys : Bytes) → drop (length xs + 1) (xs ++ (y ∷ ys)) ≡ ys
drop_past xs y ys = subst (λ n. drop n (xs ++ (y ∷ ys)) ≡ ys) add_one (past xs)
  where
    add_one : suc (length xs) ≡ length xs + 1
    add_one = omega arith

    past : (xs : Bytes) → drop (suc (length xs)) (xs ++ (y ∷ ys)) ≡ ys
    past [] = refl
    past (x ∷ xs) = past xs
