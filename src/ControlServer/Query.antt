-- ===== src/ControlServer/Query.antt =====
-- The loop of `queryValue` in src/ControlServer.h ends within its rounds.
use open_prlx.Prelude.{
  ℕ, ◌-◌, zero, suc, ◌+◌, ◌≤◌, ◌<◌, ◌≡◌, inl, inr, refl, ap, ◌∙◌, if◌then◌else◌, if_true, if_false,
  Bool, true, false, Option, none, some, [], ◌∷◌, Bool-cases, arith, length, length-drop, take,
  drop,
}
use open_prlx.Wire.{Bytes, same_bytes}
use open_prlx.ControlServer.Text.{substr, or_end, find_in, find, starts_with, query_pairs}

abbrev or_zero : Option ℕ → ℕ
or_zero none = 0
or_zero (some n) = n

-- A search for a needle that is not empty finds a place within the text.
pub find_in-bounds :
    (c : ℕ) (cs s : Bytes) (i a : ℕ) → find_in (c ∷ cs) s i ≡ some a → (i ≤ a) × (a < i + length s)
find_in-bounds c cs [] i a e = absurd (cc e)
find_in-bounds c cs (b ∷ bs) i a e =
    if-some (starts_with (b ∷ bs) (c ∷ cs)) (find_in (c ∷ cs) bs (i + 1)) e
      (λ same. omega (arith, same))
      λ later.
        let (low, high) = find_in-bounds c cs bs (i + 1) a later in
        (omega (arith, low), omega (arith, high))
  where
    if-some :
        (t : Bool) (r : Option ℕ)
        → (if t then some i else r) ≡ some a
        → (i ≡ a → (i ≤ a) × (a < i + suc (length bs)))
        → (r ≡ some a → (i ≤ a) × (a < i + suc (length bs)))
        → (i ≤ a) × (a < i + suc (length bs))
    if-some true r q f g = f (ap (or_zero) q)
    if-some false r q f g = g q

find-bounds :
    (c : ℕ) (s : Bytes) (p a : ℕ)
    → p ≤ length s
    → find s (c ∷ []) p ≡ some a
    → (p ≤ a) × (a < length s)
unfolding find
find-bounds c s p a inside e =
    let (low, high) = find_in-bounds c [] (drop p s) p a e in
    (low, omega (arith, high, length-drop p s, inside))

-- Where the rest of the query has a value, so has the query.
pair_value :
    (pair key : Bytes) (eq : Option ℕ) (rest : Option Bytes)
    → (v : Bytes) × (rest ≡ some v)
    → (v : Bytes) × (elim eq [
      | none ↦ rest
      | some i ↦ if same_bytes (take i pair) key then some (drop (i + 1) pair) else rest
    ]
        ≡ some v)
pair_value pair key none rest h = h
pair_value pair key (some i) rest (v, e) = elim (Bool-cases (same_bytes (take i pair) key)) [
  | inl here ↦ (drop (i + 1) pair, if_true _ _ here)
  | inr there ↦ (v, if_false _ _ there ∙ e)
]

-- One round, if the rest of the rounds are enough after the next `&`.
one_round :
    (fuel : ℕ) (query key : Bytes) (p : ℕ)
    → ((a : ℕ)
        → find query (38 ∷ []) p ≡ some a
        → (v : Bytes) × (query_pairs fuel query key (a + 1) ≡ some v))
    → (v : Bytes) × (query_pairs (suc fuel) query key p ≡ some v)
unfolding query_pairs
one_round fuel query key p after =
    pair_value pair key (find pair (61 ∷ []) 0) (rest amp) (rest_some amp refl)
  where
    amp : Option ℕ
    amp = find query (38 ∷ []) p

    pair : Bytes
    pair = substr query p (or_end amp query - p)

    rest : Option ℕ → Option Bytes
    rest none = some []
    rest (some a) = query_pairs fuel query key (a + 1)

    rest_some : (o : Option ℕ) → amp ≡ o → (v : Bytes) × (rest o ≡ some v)
    rest_some none e = ([], refl)
    rest_some (some a) e = after a e

-- From a place in the query on, one round more than there are bytes left is enough for the loop of
-- `queryValue`.
pub query_pairs-some :
    (fuel : ℕ) (query key : Bytes) (p : ℕ)
    → p ≤ length query
    → length query < p + fuel
    → (v : Bytes) × (query_pairs fuel query key p ≡ some v)
query_pairs-some zero query key p inside enough = absurd (omega (arith, inside, enough))
query_pairs-some (suc fuel) query key p inside enough = one_round fuel query key p λ a e.
    let (low, high) = find-bounds 38 query p a inside e in
    query_pairs-some fuel query key (a + 1) (omega (arith, high)) (omega (arith, low, enough))
