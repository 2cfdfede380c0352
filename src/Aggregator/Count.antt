-- ===== src/Aggregator/Count.antt =====
-- How many marks of a fragment map are set, and how a new mark changes that.
use open_prlx.Prelude.{
  get_or-set_self, ℕ, zero, suc, ◌+◌, ◌≤◌, ◌<◌, ◌≡◌, refl, Bool, true, false, List, [], ◌∷◌, arith,
  if◌then◌else◌, get_or, set, length, replicate, ◌≢◌, ap, ℕ_discrete,
}
use native.Mathlib.Nat.{add-zero, zero-add, suc-add}
use open_prlx.Aggregator.Recover.{count_missing}

-- The marks set among the `left` ones from index `i` on.
unfoldable pub count_set : ℕ → List Bool → ℕ → ℕ
count_set zero m i = 0
count_set (suc left) m i = (if get_or m i false then 1 else 0) + count_set left m (i + 1)

-- One step of each count.
module _ (left : ℕ) (m : List Bool) (i : ℕ) where
  pub count_set_hit :
      get_or m i false ≡ true → count_set (suc left) m i ≡ suc (count_set left m (i + 1))
  unfolding count_set
  count_set_hit e = rw e (omega arith)

  pub count_set_miss :
      get_or m i false ≡ false → count_set (suc left) m i ≡ count_set left m (i + 1)
  unfolding count_set
  count_set_miss e = rw e (omega arith)

  pub count_missing_hit :
      get_or m i false ≡ true → count_missing (suc left) m i ≡ count_missing left m (i + 1)
  unfolding count_missing
  count_missing_hit e = rw e (omega arith)

  pub count_missing_miss :
      get_or m i false ≡ false → count_missing (suc left) m i ≡ suc (count_missing left m (i + 1))
  unfolding count_missing
  count_missing_miss e = rw e (omega arith)

pub count_missing-add-count_set :
    (left : ℕ) (m : List Bool) (i : ℕ) → count_missing left m i + count_set left m i ≡ left
unfolding count_missing count_set
count_missing-add-count_set zero m i = refl
count_missing-add-count_set (suc left) m i =
    ground (arith, count_missing-add-count_set left m (i + 1))

pub count_set-add :
    (a b : ℕ) (m : List Bool) (i : ℕ)
    → count_set (a + b) m i ≡ count_set a m i + count_set b m (i + a)
unfolding count_set
count_set-add zero b m i = rw (zero-add, add-zero) (omega arith)
count_set-add (suc a) b m i = rw (suc-add a b) (omega (arith, count_set-add a b m (i + 1), shift))
  where
    shift : count_set b m (i + 1 + a) ≡ count_set b m (i + suc a)
    shift = ap (count_set b m) (omega arith)

pub get_or-replicate : (n i : ℕ) → get_or (replicate n false) i false ≡ false
get_or-replicate zero i = refl
get_or-replicate (suc n) zero = refl
get_or-replicate (suc n) (suc i) = get_or-replicate n i

pub count_set-replicate : (left n i : ℕ) → count_set left (replicate n false) i ≡ 0
unfolding count_set
count_set-replicate zero n i = refl
count_set-replicate (suc left) n i =
    ground (arith, get_or-replicate n i, count_set-replicate left n (i + 1))

pub get_or-set_ne :
    (m : List Bool) (f i : ℕ) → i ≢ f → get_or (set m f true) i false ≡ get_or m i false
get_or-set_ne [] f i h = refl
get_or-set_ne (x ∷ m) zero zero h = absurd (h refl)
get_or-set_ne (x ∷ m) zero (suc i) h = refl
get_or-set_ne (x ∷ m) (suc f) zero h = refl
get_or-set_ne (x ∷ m) (suc f) (suc i) h = get_or-set_ne m f i (omega arith)

-- A mark below a range does not count in it.
count_set-set_below :
    (left : ℕ) (m : List Bool) (f i : ℕ)
    → f < i
    → count_set left (set m f true) i ≡ count_set left m i
unfolding count_set
count_set-set_below zero m f i h = refl
count_set-set_below (suc left) m f i h =
    rw (get_or-set_ne m f i (omega arith), count_set-set_below left m f (i + 1) (omega arith))

-- Setting a mark that was clear adds one to the count of a range that it lies in.
pub count_set-set :
    (left : ℕ) (m : List Bool) (f i : ℕ)
    → f < length m
    → get_or m f false ≡ false
    → i ≤ f
    → f < i + left
    → count_set left (set m f true) i ≡ suc (count_set left m i)
unfolding count_set
count_set-set zero m f i h e p q = absurd (omega arith)
count_set-set (suc left) m f i h e p q = elim (ℕ_discrete i f) [
  | yes same ↦ rw same (
      rw (get_or-set_self m f true false h, e, count_set-set_below left m f (f + 1) (omega arith))
        (omega arith))
  | no other ↦
      rw (get_or-set_ne m f i other, count_set-set left m f (i + 1) h e (omega arith) (omega arith))
        (omega arith)
]
