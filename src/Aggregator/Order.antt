-- ===== src/Aggregator/Order.antt =====
-- The order of the calls of `send_packet` in src/wifi/WFBProcessor.cpp: a fragment's position is the
-- nonce of its packet, the block's index before the fragment's.
pub mod Sending
pub mod Dropping
pub mod Runs
use open_prlx.Prelude.{
  ℕ, zero, suc, ◌+◌, ◌*◌, ◌%◌, ◌^◌, ◌≤◌, ◌<◌, ◌≡◌, ◌==◌, if◌then◌else◌, List, ◌∷◌, arith, if_true,
  if_false,
}
use open_prlx.Aggregator.{RingItem, Sent}
use open_prlx.Aggregator.Valid.{Core, HasWindow, nth}

abbrev pub position : Sent → ℕ
position s = s.block * 256 + s.fragment

-- `log'` is `log` with calls added, whose positions go up from `lo` on and stay below `hi`.
pub data Sends (lo : ℕ) (log : List Sent) : ℕ → List Sent → Type 0 where
  nothing : {hi : ℕ} → lo ≤ hi → Sends lo log hi log
  one_more :
      {mid hi : ℕ} {log' : List Sent} (s : Sent)
      → Sends lo log mid log'
      → mid ≤ position s
      → position s < hi
      → Sends lo log hi (s ∷ log')

pub Sends-widen :
    {lo lo' : ℕ} {log : List Sent} {hi hi' : ℕ} {log' : List Sent}
    → lo' ≤ lo
    → hi ≤ hi'
    → Sends lo log hi log'
    → Sends lo' log hi' log'
Sends-widen p q (nothing h) = nothing (omega arith)
Sends-widen p q (one_more {mid} s r f g) =
    one_more s (Sends-widen {hi = mid} {hi' = mid} p (omega arith) r) f (omega arith)

pub Sends-trans :
    {lo mid : ℕ} {log log' : List Sent} {hi : ℕ} {log'' : List Sent}
    → Sends lo log mid log'
    → Sends mid log' hi log''
    → Sends lo log hi log''
Sends-trans p (nothing h) = Sends-widen (omega arith) h p
Sends-trans p (one_more s r f g) = one_more s (Sends-trans p r) f g

-- The position of the fragment that an entry sends next.
abbrev pub next_of : RingItem → ℕ
next_of item = item.block_idx * 256 + item.fragment_to_send_idx

-- The position of what is sent next: the oldest entry's, or, with no entry, the start of the block
-- `next`.
abbrev pub floor : ℕ → Core → ℕ
floor next c = if c.rx_ring_alloc == 0 then next * 256 else next_of (c.rx_ring c.rx_ring_front)

pub floor_some :
    (next : ℕ) (c : Core) → 0 < c.rx_ring_alloc → floor next c ≡ next_of (c.rx_ring c.rx_ring_front)
floor_some next c h = if_false {b = c.rx_ring_alloc == 0} _ _ (ground (arith, h))

pub floor_none : (next : ℕ) (c : Core) → c.rx_ring_alloc ≡ 0 → floor next c ≡ next * 256
floor_none next c h = if_true {b = c.rx_ring_alloc == 0} _ _ (ground (arith, h))

-- The block after the last known one; before the first block it is 0.
abbrev pub floor_of : Core → ℕ
floor_of c = floor ((c.last_known_block + 1) % 2 ^ 64) c

-- The blocks of the window go up, and are all before `next`.
pub record Rising (next : ℕ) (c : Core) : Type 0 where
  pub up : (j : ℕ) → suc j < c.rx_ring_alloc → (nth c j).block_idx < (nth c (suc j)).block_idx
  pub below : (j : ℕ) → j < c.rx_ring_alloc → (nth c j).block_idx < next

pub HasWindow-Rising :
    {x next next' k n : ℕ} (c : Core) → HasWindow x 40 next k n c → next ≤ next' → Rising next' c
HasWindow-Rising c v le = record {
  up = λ j h.
      omega (arith, v.blocks j (omega arith) (omega arith), v.blocks (suc j) h (omega arith));
  below = λ j h. omega (arith, v.blocks j h (omega arith));
}

-- What has been sent up to when an entry has been taken, the oldest one or not.
abbrev pub reached : ℕ → ℕ → Core → ℕ
reached zero next c = floor next c
reached (suc s) next c = suc (c.rx_ring c.rx_ring_front).block_idx * 256
