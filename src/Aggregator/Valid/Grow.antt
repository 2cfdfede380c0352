-- ===== src/Aggregator/Valid/Grow.antt =====
-- The window after a new block has entered it.
use open_prlx.Prelude.{
  ℕ, suc, ◌+◌, ◌-◌, ◌%◌, ◌*◌, ◌≤◌, ◌<◌, ◌≡◌, ◌⊎◌, inl, inr, ap, sym, ◌∙◌, subst, false, arith,
  subst, replicate, length-replicate, ℕ_discrete,
}
use open_prlx.Aggregator.{RingItem, update}
use open_prlx.Aggregator.Count.{count_set-replicate}
use open_prlx.Aggregator.Valid.{HasWindow, IsOpen, IsSized, Core, nobody, nth}
use open_prlx.Aggregator.Order.{Rising, floor, floor_some, floor_none, next_of, reached}
use open_prlx.Aggregator.Valid.Moves.{update_self, update_ne, update_all}

-- The entry that `start_block` makes is sized, and open.
abbrev pub started : ℕ → ℕ → RingItem → RingItem
started n block item = record item {
  block_idx = block;
  fragment_to_send_idx = 0;
  has_fragments = 0;
  fragment_map = replicate n false;
}

pub started-IsSized :
    (n block : ℕ) (item : RingItem) → IsSized n item → IsSized n (started n block item)
started-IsSized n block item s = record { map_len = length-replicate n false; buf_len = s.buf_len }

pub started-IsOpen :
    {k : ℕ} (n block : ℕ) (item : RingItem) → 0 < k → IsOpen k n (started n block item)
started-IsOpen n block item h = record {
  counted = sym (count_set-replicate n n 0);
  partial = h;
  unsent = h;
}

-- A window of `alloc` entries from `front` on grows by one at its end, or moves on by one; its
-- `j`-th entry was the `(j + s)`-th before.
abbrev pub GrowsBy : ℕ → ℕ → ℕ → ℕ → ℕ → Type 0
GrowsBy front alloc front' alloc' s =
    ((alloc < 40) × (front' ≡ front) × (alloc' ≡ alloc + 1) × (s ≡ 0))
    ⊎ ((alloc ≡ 40) × (front' ≡ (front + 1) % 40) × (alloc' ≡ 40) × (s ≡ 1))

abbrev pub grown : Core → ℕ → ℕ → ℕ → ℕ → Core
grown c front' alloc' n block =
    let idx = (front' + (alloc' - 1)) % 40 in
    record c {
      rx_ring = update c.rx_ring idx (started n block (c.rx_ring idx));
      rx_ring_front = front';
      rx_ring_alloc = alloc';
    }

module _ {fresh next k n : ℕ} (c : Core) (front' alloc' s : ℕ)
    (grows : GrowsBy c.rx_ring_front c.rx_ring_alloc front' alloc' s) (k_pos : 0 < k)
    (v : HasWindow nobody fresh next k n c) where
  old :
      (j : ℕ)
      → j < alloc' - 1
      → (grown c front' alloc' n next).rx_ring ((front' + j) % 40)
        ≡ c.rx_ring ((c.rx_ring_front + (j + s)) % 40)
  old j h =
      update_ne c.rx_ring _ _ ((front' + j) % 40) (omega (arith, v.front_in, v.alloc_in))
      ∙ ap c.rx_ring (omega (arith, v.front_in, v.alloc_in))

  new :
      (j : ℕ)
      → j ≡ alloc' - 1
      → (grown c front' alloc' n next).rx_ring ((front' + j) % 40)
        ≡ started n next (c.rx_ring ((front' + (alloc' - 1)) % 40))
  new j h = rw h (update_self c.rx_ring _ _)

  pub grown-HasWindow : HasWindow nobody (suc fresh) (suc next) k n (grown c front' alloc' n next)
  grown-HasWindow = record {
    front_in = omega (arith, v.front_in);
    alloc_in = omega (arith, v.alloc_in);
    sized = update_all (IsSized n) c.rx_ring _ _ (started-IsSized n next _ (v.sized _)) v.sized;
    blocks = λ j h q. elim (ℕ_discrete j (alloc' - 1)) [
      | yes e ↦ omega (arith, ap (λ it. it.block_idx) (new j e))
      | no ne ↦ omega (
        arith,
        v.alloc_in,
        ap (λ it. it.block_idx) (old j (omega arith)),
        v.blocks (j + s) (omega arith) (omega arith),
      )
    ];
    opened = λ j h ne. elim (ℕ_discrete j (alloc' - 1)) [
      | yes e ↦
          subst (IsOpen k n) (sym (new j e))
            (started-IsOpen n next (c.rx_ring ((front' + (alloc' - 1)) % 40)) k_pos)
      | no other ↦
          subst (IsOpen k n) (sym (old j (omega arith)))
            (v.opened (j + s) (omega arith) (omega (arith, v.alloc_in)))
    ];
    busy = λ h. absurd (omega (arith, v.alloc_in));
  }

  suc_add : (j : ℕ) → suc j + s ≡ suc (j + s)
  suc_add j = omega arith

  pub grown-Rising : Rising next c → Rising (suc next) (grown c front' alloc' n next)
  grown-Rising r = record {
    up = λ j h. elim (ℕ_discrete (suc j) (alloc' - 1)) [
      | yes e ↦ omega (
        arith,
        ap (λ it. it.block_idx) (new (suc j) e),
        ap (λ it. it.block_idx) (old j (omega arith)),
        r.below (j + s) (omega arith),
      )
      | no ne ↦ omega (
        arith,
        ap (λ it. it.block_idx) (old (suc j) (omega arith) ∙ ap (nth c) (suc_add j)),
        ap (λ it. it.block_idx) (old j (omega arith)),
        r.up (j + s) (omega arith),
      )
    ];
    below = λ j h. elim (ℕ_discrete j (alloc' - 1)) [
      | yes e ↦ omega (arith, ap (λ it. it.block_idx) (new j e))
      | no ne ↦
          omega
            (arith, ap (λ it. it.block_idx) (old j (omega arith)), r.below (j + s) (omega arith))
    ];
  }

  at_front : (front' + 0) % 40 ≡ front'
  at_front = omega (arith, v.front_in)

  was_front : (c.rx_ring_front + 0) % 40 ≡ c.rx_ring_front
  was_front = omega (arith, v.front_in)

  -- The oldest entry afterwards.
  oldest : RingItem
  oldest = (grown c front' alloc' n next).rx_ring front'

  oldest_new : alloc' ≡ 1 → next_of oldest ≡ next * 256
  unfolding oldest
  oldest_new e = omega (
    arith,
    ap next_of (new 0 (omega arith)),
    ap (λ l. next_of ((grown c front' alloc' n next).rx_ring l)) at_front,
  )

  oldest_old : 1 < alloc' → oldest ≡ nth c s
  unfolding oldest
  oldest_old h =
      ap (grown c front' alloc' n next).rx_ring (sym at_front)
      ∙ old 0 (omega arith)
      ∙ ap (λ l. c.rx_ring ((c.rx_ring_front + l) % 40)) (omega arith)

  -- What is sent next comes after what has been sent.
  pub grown-floor :
      Rising next c → reached s next c ≤ floor (suc next) (grown c front' alloc' n next)
  unfolding oldest
  grown-floor r =
      let there = floor_some (suc next) (grown c front' alloc' n next) (omega arith) in
      let here = ap c.rx_ring was_front in
      elim grows [
        | inl (room, same, more, zero_s) ↦
            subst (λ s. reached s next c ≤ floor (suc next) (grown c front' alloc' n next))
              (sym zero_s)
              (elim (ℕ_discrete c.rx_ring_alloc 0) [
                | yes e ↦ omega (arith, there, floor_none next c e, oldest_new (omega arith))
                | no ne ↦ omega (
                  arith,
                  there,
                  floor_some next c (omega arith),
                  ap next_of (oldest_old (omega arith)),
                  ap next_of here,
                  ap (λ l. next_of (nth c l)) zero_s,
                )
              ])
        | inr (full, on, still, one_s) ↦
            subst (λ s. reached s next c ≤ floor (suc next) (grown c front' alloc' n next))
              (sym one_s)
              (omega (
                arith,
                there,
                ap next_of (oldest_old (omega arith)),
                ap (λ it. it.block_idx) here,
                ap (λ l. next_of (nth c l)) one_s,
                r.up 0 (omega arith),
              ))
      ]
