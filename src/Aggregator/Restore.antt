-- ===== src/Aggregator/Restore.antt =====
-- `apply_fec` with a code that decodes: the data fragments of the block are restored.
use open_prlx.Prelude.{
  ℕ, zero, suc, ◌+◌, ◌≤◌, ◌<◌, ◌≡◌, ◌⊎◌, inl, inr, refl, ap, ap₂, sym, Bool, true, false, List, [],
  ◌∷◌, arith, ◌==◌, ==_iff, get_or, set, length, length-set, Bool-cases, if◌then◌else◌, map,
  ℕ_discrete,
}
use open_prlx.Wire.{Bytes}
use open_prlx.Aggregator.{RingItem, Fec}
use open_prlx.Aggregator.Recover.{Plan, write_out}
use open_prlx.Aggregator.Planning.{IsPlan, Rows, missing}

-- What fec_decode wants of the indexes from row `i` on: a row has its own data block, or else a
-- parity block that comes after those of the rows before, from `j` on.
abbrev pub InPlace : ℕ → ℕ → ℕ → List ℕ → Type 0
InPlace n i j [] = Unit
InPlace n i j (x ∷ xs) =
    ((x ≡ i) × InPlace n (i + 1) j xs) ⊎ ((j ≤ x) × (x < n) × InPlace n (i + 1) (x + 1) xs)

-- The rows, from `i` on, that have not their own data block.
unfoldable pub absent : ℕ → List ℕ → List ℕ
absent i [] = []
absent i (x ∷ xs) = if x == i then absent (i + 1) xs else i ∷ absent (i + 1) xs

-- fec_decode as documented: given `k` blocks of the codeword `word`, it gives the data blocks of the
-- rows that have not their own.
abbrev pub Decodes : (Fec → List Bytes → List ℕ → List Bytes) → Fec → (ℕ → Bytes) → Type 0
Decodes fec_decode p word =
    (index : List ℕ)
    → length index ≡ p.k
    → InPlace p.n 0 p.k index
    → fec_decode p (map word index) index ≡ map word (absent 0 index)

module _ (n : ℕ) (m : List Bool) where
  Rows-InPlace : (i j : ℕ) (index : List ℕ) → Rows n m i j index → InPlace n i j index
  Rows-InPlace i j [] r = tt
  Rows-InPlace i j (x ∷ xs) (_, inl (_, e, r)) = inl (e, Rows-InPlace (i + 1) j xs r)
  Rows-InPlace i j (x ∷ xs) (_, inr (_, p, q, r)) = inr (p, q, Rows-InPlace (i + 1) (x + 1) xs r)

  -- The rows without their own block are the fragments that have not arrived.
  absent-missing :
      (left i j : ℕ) (index : List ℕ)
      → i + left ≤ j
      → length index ≡ left
      → Rows n m i j index
      → absent i index ≡ missing left m i
  unfolding absent missing
  absent-missing zero i j [] h e r = refl
  absent-missing zero i j (x ∷ xs) h e r = absurd (omega (arith, e))
  absent-missing (suc left) i j [] h e r = absurd (omega (arith, e))
  absent-missing (suc left) i j (x ∷ xs) h e (_, inl (here, same, r)) =
      rw (here, (==_iff x i).1 same)
        (absent-missing left (i + 1) j xs (omega arith) (omega (arith, e)) r)
  absent-missing (suc left) i j (x ∷ xs) h e (_, inr (gone, p, q, r)) =
      rw (gone, ne)
        (ap (λ l. i ∷ l)
          (absent-missing left (i + 1) (x + 1) xs (omega arith) (omega (arith, e)) r))
    where
      ne : (x == i) ≡ false
      ne = ground arith

module _ (fragments : List Bytes) (word : ℕ → Bytes) (m : List Bool) (n : ℕ)
    (here : (j : ℕ) → j < n → get_or m j false ≡ true → get_or fragments j [] ≡ word j) where
  words :
      (i j : ℕ) (index : List ℕ)
      → i + length index ≤ n
      → Rows n m i j index
      → map (λ x. get_or fragments x []) index ≡ map word index
  words i j [] h r = refl
  words i j (x ∷ xs) h (mark, inl (_, e, r)) =
      ap₂ ◌∷◌ (here x (omega (arith, h)) mark) (words (i + 1) j xs (omega (arith, h)) r)
  words i j (x ∷ xs) h (mark, inr (_, _, q, r)) =
      ap₂ ◌∷◌ (here x q mark) (words (i + 1) (x + 1) xs (omega (arith, h)) r)

set_at :
    (fragments : List Bytes) (i j : ℕ) (v w : Bytes)
    → get_or fragments j [] ≡ w
    → (j ≡ i → v ≡ w)
    → get_or (set fragments i v) j [] ≡ w
set_at [] i j v w e h = e
set_at (b ∷ bs) zero zero v w e h = h refl
set_at (b ∷ bs) zero (suc j) v w e h = e
set_at (b ∷ bs) (suc i) zero v w e h = e
set_at (b ∷ bs) (suc i) (suc j) v w e h = set_at bs i j v w e (λ q. h (ap suc q))

set_here :
    (fragments : List Bytes) (i : ℕ) (v : Bytes)
    → i < length fragments
    → get_or (set fragments i v) i [] ≡ v
set_here [] i v h = absurd (omega arith)
set_here (b ∷ bs) zero v h = refl
set_here (b ∷ bs) (suc i) v h = set_here bs i v (omega arith)

module _ (word : ℕ → Bytes) (m : List Bool) where
  -- A fragment that is right stays so.
  kept :
      (fragments : List Bytes) (out : List ℕ) (j : ℕ)
      → get_or fragments j [] ≡ word j
      → get_or (write_out fragments out (map word out)) j [] ≡ word j
  unfolding write_out
  kept fragments [] j e = e
  kept fragments (i ∷ out) j e =
      kept (set fragments i (word i)) out j
        (set_at fragments i j (word i) (word j) e (λ q. ap word (sym q)))

  -- Where the missing fragments are written, the fragments from `i` on are right.
  restored :
      (left i : ℕ) (fragments : List Bytes)
      → i + left ≤ length fragments
      → ((j : ℕ) → j < i + left → get_or m j false ≡ true → get_or fragments j [] ≡ word j)
      → (j : ℕ) → i ≤ j
      → j < i + left
      → get_or (write_out fragments (missing left m i) (map word (missing left m i))) j [] ≡ word j
  unfolding write_out missing
  restored zero i fragments fit here j from to = absurd (omega (arith, to))
  restored (suc left) i fragments fit here j from to = elim (Bool-cases (get_or m i false)) [
    | inl mark ↦ rw mark (elim (ℕ_discrete j i) [
      | yes same ↦ kept fragments (missing left m (i + 1)) j (here j to (rw same mark))
      | no other ↦
          restored left (i + 1) fragments (omega arith) (λ l q. here l (omega (arith, q))) j
            (omega arith) (omega arith)
    ])
    | inr gap ↦
        let now = set fragments i (word i) in
        rw gap (elim (ℕ_discrete j i) [
          | yes same ↦
              kept now (missing left m (i + 1)) j
                (rw same (set_here fragments i (word i) (omega (arith, fit))))
          | no other ↦
              restored left (i + 1) now (omega (arith, length-set fragments i (word i)))
                (λ l q e.
                  set_at fragments i l (word i) (word l) (here l (omega (arith, q)) e)
                    (λ r. ap word (sym r)))
                j (omega arith) (omega arith)
        ])
  ]

-- The arrays of a plan, given to a code that decodes, restore the data fragments.
pub write_out-restores :
    (fec_decode : Fec → List Bytes → List ℕ → List Bytes) (word : ℕ → Bytes) (item : RingItem)
    (k n : ℕ) (p : Plan)
    → Decodes fec_decode (record { k = k; n = n }) word
    → k ≤ n
    → length item.fragments ≡ n
    → ((j : ℕ)
        → j < n
        → get_or item.fragment_map j false ≡ true
        → get_or item.fragments j [] ≡ word j)
    → IsPlan item n k 0 k p
    → (j : ℕ) → j < k
    → get_or
        (write_out item.fragments p.out (fec_decode (record { k = k; n = n }) p.in_blocks p.index))
        j
        []
      ≡ word j
write_out-restores fec_decode word item k n p decodes le len here v j inside =
    rw
      (
        v.outputs,
        v.inputs,
        words item.fragments word m n here 0 k p.index (omega (arith, v.count, le)) v.rows,
        decodes p.index v.count (Rows-InPlace n m 0 k p.index v.rows),
        absent-missing n m k 0 k p.index (omega arith) v.count v.rows,
      )
      (restored word m k 0 item.fragments (omega (arith, le, len))
        (λ l q. here l (omega (arith, q, le))) j (omega arith) (omega (arith, inside)))
  where
    m : List Bool
    m = item.fragment_map
