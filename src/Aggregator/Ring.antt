-- ===== src/Aggregator/Ring.antt =====
-- `rx_ring_push` and `get_block_ring_idx` of src/wifi/WFBProcessor.cpp, and the removal of the
-- oldest block. A ring index of -1 is `none`. Where a function may fail an `assert`, its result is
-- an option, and `none` is that failure.
use open_prlx.Prelude.{
  ℕ, zero, suc, ◌+◌, ◌-◌, ◌%◌, ◌^◌, ◌==◌, ◌&&◌, not, if◌then◌else◌, ltb, leb, min, Bool, false,
  Option, none, some, pos, pos_part, replicate,
}
use open_prlx.Wire.{mod_n, rx_ring_size}
use open_prlx.Aggregator.{Aggregator, RingItem, no_block, update}
use open_prlx.Aggregator.Send.{send_front}

-- The branches of `rx_ring_push`: a free entry, or the oldest block's, which is sent first.
unfoldable pub take_free : Aggregator → Aggregator × ℕ
take_free a = (
  record a { rx_ring_alloc = a.rx_ring_alloc + 1 },
  mod_n (pos (a.rx_ring_front + a.rx_ring_alloc)) rx_ring_size,
)

unfoldable pub take_oldest : Aggregator → Aggregator × ℕ
take_oldest a =
    let b = send_front (record a { count_p_override = (a.count_p_override + 1) % 2 ^ 32 }) in
    (record b { rx_ring_front = mod_n (pos (b.rx_ring_front + 1)) rx_ring_size }, b.rx_ring_front)

unfoldable pub rx_ring_push : Aggregator → Aggregator × ℕ
rx_ring_push a = if ltb a.rx_ring_alloc rx_ring_size then take_free a else take_oldest a

-- The search over the `c` entries from index `i` on.
unfoldable pub find_block : (ℕ → RingItem) → ℕ → ℕ → ℕ → Option ℕ
find_block ring block_idx zero i = none
find_block ring block_idx (suc c) i =
    if (ring i).block_idx == block_idx
    then some i
    else find_block ring block_idx c (mod_n (pos (i + 1)) rx_ring_size)

-- What the loop over the new blocks writes into the entry that it took.
unfoldable pub start_block : Aggregator → ℕ → ℕ → Aggregator
start_block a ring_idx block_idx = record a {
  rx_ring = update a.rx_ring ring_idx (record (a.rx_ring ring_idx) {
    block_idx = block_idx;
    fragment_to_send_idx = 0;
    has_fragments = 0;
    fragment_map = replicate (pos_part a.fec_n) false;
  });
}

-- The loop over the new blocks with `left` rounds to go.
unfoldable pub push_blocks : ℕ → ℕ → ℕ → ℕ → Aggregator → Option ℕ → Aggregator × Option ℕ
push_blocks zero block_idx new_blocks i a ring_idx = (a, ring_idx)
push_blocks (suc left) block_idx new_blocks i a ring_idx =
    let (b, idx) = rx_ring_push a in
    push_blocks left block_idx new_blocks (i + 1)
      (start_block b idx ((block_idx + i + 1 + 2 ^ 64 - new_blocks) % 2 ^ 64)) (some idx)

unfoldable pub count_new_blocks : Aggregator → ℕ → ℕ
count_new_blocks a block_idx =
    min (if a.last_known_block == no_block then 1 else block_idx - a.last_known_block) rx_ring_size

unfoldable pub is_processed : Aggregator → ℕ → Bool
is_processed a block_idx = not (a.last_known_block == no_block) && leb block_idx a.last_known_block

-- The part after the search, for a block that is not in the ring.
unfoldable pub admit_block : Aggregator → ℕ → Option (Aggregator × Option ℕ)
admit_block a block_idx =
    if is_processed a block_idx
    then some (a, none)
    else (let new_blocks = count_new_blocks a block_idx in
        if ltb 0 new_blocks
        then some (
            push_blocks new_blocks block_idx new_blocks 0
              (record a { last_known_block = block_idx }) none)
        else none)

unfoldable pub get_block_ring_idx : Aggregator → ℕ → Option (Aggregator × Option ℕ)
get_block_ring_idx a block_idx =
    elim (find_block a.rx_ring block_idx a.rx_ring_alloc a.rx_ring_front) [
      | some i ↦ some (a, some i)
      | none ↦ admit_block a block_idx
    ]

-- Drops the oldest block. `rx_ring_alloc` is an `int`, and `-` on ℕ stops at 0: where a block is
-- dropped an `assert` follows, which `remove_front` and `Recover.flush_and_decode` have as a test.
unfoldable pub advance : Aggregator → Aggregator
advance a = record a {
  rx_ring_front = mod_n (pos (a.rx_ring_front + 1)) rx_ring_size;
  rx_ring_alloc = a.rx_ring_alloc - 1;
}

unfoldable pub remove_front : Aggregator → Option Aggregator
unfolding advance
remove_front a = if ltb 0 a.rx_ring_alloc then some (advance a) else none
