-- ===== src/Aggregator/Planning.antt =====
-- The arrays that `apply_fec` gives to `fec_decode`: what the library asks of them holds.
use open_prlx.Prelude.{
  ℕ, zero, suc, ◌+◌, ◌-◌, ◌≤◌, ◌<◌, ◌≡◌, ◌⊎◌, inl, inr, refl, ap, ap₂, ◌∙◌, Bool, true, false, some,
  List, [], ◌∷◌, arith, get_or, length, Bool-cases, if◌then◌else◌, map,
}
use open_prlx.Aggregator.{RingItem}
use open_prlx.Aggregator.Recover.{
  Plan, find_parity, plan_from, count_missing, add_input, add_output,
}
use open_prlx.Aggregator.Count.{
  count_set, count_set_hit, count_set_miss, count_missing_hit, count_missing_miss,
}

-- A search over a range with a mark finds the first one, and leaves the rest of the range.
record Found (m : List Bool) (left j : ℕ) (j' rest : ℕ) : Type 0 where
  found : find_parity m left j ≡ some j'
  from : j ≤ j'
  marked : get_or m j' false ≡ true
  range : j' + 1 + rest ≡ j + left
  counted : count_set left m j ≡ suc (count_set rest m (j' + 1))

module _ (m : List Bool) (left j : ℕ) where
  Found-hit : get_or m j false ≡ true → Found m (suc left) j j left
  unfolding find_parity
  Found-hit e = record {
    found = rw e;
    from = omega arith;
    marked = e;
    range = omega arith;
    counted = count_set_hit left m j e;
  }

  Found-miss :
      get_or m j false ≡ false
      → {j' rest : ℕ} → Found m left (j + 1) j' rest
      → Found m (suc left) j j' rest
  unfolding find_parity
  Found-miss e f = record {
    found = rw e f.found;
    from = omega (arith, f.from);
    marked = f.marked;
    range = omega (arith, f.range);
    counted = count_set_miss left m j e ∙ f.counted;
  }

find_parity-Found :
    (m : List Bool) (left j : ℕ)
    → 0 < count_set left m j
    → (j' : ℕ) × (rest : ℕ) × Found m left j j' rest
unfolding count_set
find_parity-Found m zero j h = absurd (omega arith)
find_parity-Found m (suc left) j h = elim (Bool-cases (get_or m j false)) [
  | inl e ↦ (j, left, Found-hit m left j e)
  | inr e ↦
      let (j', rest, f) =
        find_parity-Found m left (j + 1) (omega (arith, count_set_miss left m j e)) in
      (j', rest, Found-miss m left j e f)
]

-- There is no mark in an empty range.
count_set_pos : (left : ℕ) (m : List Bool) (j : ℕ) → 0 < count_set left m j → 0 < left
unfolding count_set
count_set_pos zero m j h = absurd (omega arith)
count_set_pos (suc left) m j h = omega arith

-- The data fragments from `i` on, of `left`, that have not arrived.
unfoldable pub missing : ℕ → List Bool → ℕ → List ℕ
missing zero m i = []
missing (suc left) m i =
    if get_or m i false then missing left m (i + 1) else i ∷ missing left m (i + 1)

-- From row `i` on, each row has its own fragment, if it arrived, or else a later fragment than the
-- rows before took, from `j` on.
abbrev pub Rows : ℕ → List Bool → ℕ → ℕ → List ℕ → Type 0
Rows n m i j [] = Unit
Rows n m i j (x ∷ xs) =
    (get_or m x false ≡ true)
    × (((get_or m i false ≡ true) × (x ≡ i) × Rows n m (i + 1) j xs)
        ⊎ ((get_or m i false ≡ false) × (j ≤ x) × (x < n) × Rows n m (i + 1) (x + 1) xs))

pub record IsPlan (item : RingItem) (n left i j : ℕ) (p : Plan) : Type 0 where
  pub rows : Rows n item.fragment_map i j p.index
  pub count : length p.index ≡ left
  pub inputs : p.in_blocks ≡ map (λ x. get_or item.fragments x []) p.index
  pub outputs : p.out ≡ missing left item.fragment_map i

-- The outcome of the loop: it ends, with arrays that are a plan.
abbrev pub Planned : RingItem → ℕ → ℕ → ℕ → ℕ → Type 0
Planned item n left i j =
    (p : Plan) × (plan_from item n left i j ≡ some p) × IsPlan item n left i j p

module _ (item : RingItem) (n left i j : ℕ) where
  Planned-hit :
      get_or item.fragment_map i false ≡ true
      → Planned item n left (i + 1) j
      → Planned item n (suc left) i j
  unfolding plan_from missing
  Planned-hit e (p, q, v) = (
    record p { index = i ∷ p.index; in_blocks = get_or item.fragments i [] ∷ p.in_blocks },
    rw (e, plan_from) (ap (add_input i (get_or item.fragments i [])) q),
    record {
      rows = (e, inl (e, refl, v.rows));
      count = ap suc v.count;
      inputs = ap₂ ◌∷◌ refl v.inputs;
      outputs = rw e v.outputs;
    },
  )

  Planned-gap :
      get_or item.fragment_map i false ≡ false
      → {x rest : ℕ} → Found item.fragment_map (n - j) j x rest
      → x < n
      → Planned item n left (i + 1) (x + 1)
      → Planned item n (suc left) i j
  unfolding plan_from missing
  Planned-gap e {x} f inside (p, q, v) = (
    record {
      index = x ∷ p.index;
      in_blocks = get_or item.fragments x [] ∷ p.in_blocks;
      out = i ∷ p.out;
    },
    rw (e, plan_from)
        (rw (f.found, plan_from)
          (ap (λ o. add_output i (add_input x (get_or item.fragments x []) o)) q)),
    record {
      rows = (f.marked, inr (e, f.from, inside, v.rows));
      count = ap suc v.count;
      inputs = ap₂ ◌∷◌ refl v.inputs;
      outputs = rw e (ap (λ l. i ∷ l) v.outputs);
    },
  )

-- With as many later fragments as there are gaps, no entry is left unset.
pub plan_from-Planned :
    (item : RingItem) (n left i j : ℕ)
    → count_missing left item.fragment_map i ≤ count_set (n - j) item.fragment_map j
    → Planned item n left i j
unfolding plan_from missing
plan_from-Planned item n zero i j h = (
  record { index = []; in_blocks = []; out = [] },
  refl,
  record { rows = tt; count = refl; inputs = refl; outputs = refl },
)
plan_from-Planned item n (suc left) i j h = elim (Bool-cases (get_or m i false)) [
  | inl e ↦
      Planned-hit item n left i j e
        (plan_from-Planned item n left (i + 1) j (omega (arith, count_missing_hit left m i e)))
  | inr e ↦
      let some_left : 0 < count_set (n - j) m j = omega (arith, count_missing_miss left m i e) in
      let (x, rest, f) = find_parity-Found m (n - j) j some_left in
      let inside : x < n = omega (arith, f.range, count_set_pos (n - j) m j some_left) in
      let the_rest : rest ≡ n - (x + 1) =
        omega (arith, f.range, count_set_pos (n - j) m j some_left) in
      Planned-gap item n left i j e f inside (
        plan_from-Planned item n left (i + 1) (x + 1) (
          omega (
            arith,
            count_missing_miss left m i e,
            f.counted,
            ap (λ l. count_set l m (x + 1)) the_rest,
          )))
]
  where
    m : List Bool
    m = item.fragment_map
