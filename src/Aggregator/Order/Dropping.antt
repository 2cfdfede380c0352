-- ===== src/Aggregator/Order/Dropping.antt =====
-- The order of the calls of `send_packet` where the oldest blocks are sent and dropped.
use open_prlx.Prelude.{
  ℕ, zero, suc, ◌+◌, ◌*◌, ◌%◌, ◌≤◌, ◌<◌, ◌≡◌, inl, refl, ap, sym, subst, arith, ℕ_discrete,
}
use open_prlx.Wire.{mod_n}
use open_prlx.Aggregator.{Aggregator, front_item}
use open_prlx.Aggregator.Send.{send_front}
use open_prlx.Aggregator.Ring.{advance}
use open_prlx.Aggregator.Recover.{flush_blocks}
use open_prlx.Aggregator.Valid.{HasWindow, core}
use open_prlx.Aggregator.Valid.Moves.{core-send_front}
use open_prlx.Aggregator.Valid.Finish.{advance-Working}
use open_prlx.Aggregator.Valid.Working.{Working}
use open_prlx.Aggregator.Order.{
  Sends, nothing, Sends-widen, Sends-trans, next_of, floor, floor_some, floor_none,
}
use open_prlx.Aggregator.Order.Sending.{send_front-Sends}

-- When the oldest block is dropped, the next one is what is sent next.
pub advance-floor :
    {y next k n : ℕ} (a : Aggregator)
    → HasWindow y 40 next k n (core a)
    → 0 < a.rx_ring_alloc
    → suc (front_item a).block_idx * 256 ≤ floor next (core (advance a))
unfolding advance mod_n
advance-floor {y} {next} a v h = elim (ℕ_discrete a.rx_ring_alloc 1) [
  | yes one ↦ omega (arith, floor_none next (core (advance a)) (omega arith), block 0 h, zero_at)
  | no ne ↦ omega (
    arith,
    floor_some next (core (advance a)) (omega arith),
    block 0 h,
    zero_at,
    block 1 (omega arith),
    ap (λ l. (a.rx_ring l).block_idx) one_at,
  )
]
  where
    block :
        (j : ℕ)
        → j < a.rx_ring_alloc
        → (a.rx_ring ((a.rx_ring_front + j) % 40)).block_idx + a.rx_ring_alloc ≡ next + j
    block j p = v.blocks j p (omega arith)

    zero_at : (a.rx_ring ((a.rx_ring_front + 0) % 40)).block_idx ≡ (front_item a).block_idx
    zero_at = ap (λ l. (a.rx_ring l).block_idx) (omega (arith, v.front_in))

    one_at : (a.rx_ring_front + 1) % 40 ≡ (40 + (a.rx_ring_front + 1) % 40) % 40
    one_at = omega arith

-- The loop over the blocks before position `x` ends at the block there.
pub flush_blocks-Sends :
    (x : ℕ) {k n : ℕ} (a : Aggregator)
    → x < a.rx_ring_alloc
    → Working x k n (core a)
    → Sends
        (next_of (front_item a))
        a.sent
        (next_of (front_item (flush_blocks x a)))
        (flush_blocks x a).sent
unfolding flush_blocks advance
flush_blocks-Sends zero a inside w = nothing (omega arith)
flush_blocks-Sends (suc x) {k} {n} a inside w =
    let e = core-send_front a in
    let b = send_front a in
    let w' = subst (Working (suc x) k n) (sym e) w in
    let some_left = ap (λ c. c.rx_ring_alloc) e in
    Sends-trans
      (Sends-widen (omega arith)
        (omega (
          arith,
          advance-floor b w'.window (omega arith),
          floor_some (suc b.last_known_block) (core (advance b)) (few b some_left),
          ap (λ c. (c.rx_ring c.rx_ring_front).block_idx) e,
        ))
        (send_front-Sends a w.has_code.k_eq (omega (arith, w.has_code.k_le, w.has_code.n_byte))
          (omega (arith, cursor))))
      (flush_blocks-Sends x (advance b) (few_more b some_left)
        (advance-Working b (inl refl) (omega arith) w'))
  where
    few : (b : Aggregator) → b.rx_ring_alloc ≡ a.rx_ring_alloc → 0 < (advance b).rx_ring_alloc
    few b e = omega arith

    few_more : (b : Aggregator) → b.rx_ring_alloc ≡ a.rx_ring_alloc → x < (advance b).rx_ring_alloc
    few_more b e = omega arith

    cursor : (front_item a).fragment_to_send_idx < k
    cursor =
        subst (λ l. (a.rx_ring l).fragment_to_send_idx < k) (omega (arith, w.window.front_in))
          (w.window.opened 0 (omega arith) (omega arith)).unsent
