-- ===== src/Aggregator/Valid.antt =====
-- The invariant of an `Aggregator` that has a session: the window of blocks in the ring.
pub mod Moves
pub mod Grow
pub mod Push
pub mod Lookup
pub mod Working
pub mod Finish
pub mod Decode
pub mod Flush
pub mod Restores
pub mod Total
pub mod Packets
use open_prlx.Prelude.{
  ℕ, suc, ◌+◌, ◌%◌, ◌≤◌, ◌<◌, ◌≡◌, ◌≢◌, ◌⊎◌, none, some, Option, pos, negsuc, ℤ, length,
}
use open_prlx.Wire.{max_block_idx}
use open_prlx.Aggregator.{Aggregator, RingItem, Fec, no_block}
use open_prlx.Aggregator.Count.{count_set}

-- What the invariant reads of an aggregator.
pub record Core : Type 0 where
  pub fec_p : Option Fec
  pub fec_k : ℤ
  pub fec_n : ℤ
  pub rx_ring : ℕ → RingItem
  pub rx_ring_front : ℕ
  pub rx_ring_alloc : ℕ
  pub last_known_block : ℕ

abbrev pub core : Aggregator → Core
core a = record {
  fec_p = a.fec_p;
  fec_k = a.fec_k;
  fec_n = a.fec_n;
  rx_ring = a.rx_ring;
  rx_ring_front = a.rx_ring_front;
  rx_ring_alloc = a.rx_ring_alloc;
  last_known_block = a.last_known_block;
}

-- The session's code is in place, with 1 ≤ k ≤ n < 256.
pub record Code (k n : ℕ) (fec_p : Option Fec) (fec_k fec_n : ℤ) : Type 0 where
  pub code : fec_p ≡ some (record { k = k; n = n })
  pub k_eq : fec_k ≡ pos k
  pub n_eq : fec_n ≡ pos n
  pub k_pos : 1 ≤ k
  pub k_le : k ≤ n
  pub n_byte : n < 256

abbrev pub HasCode : ℕ → ℕ → Core → Type 0
HasCode k n c = Code k n c.fec_p c.fec_k c.fec_n

-- The buffers of an entry have the code's size.
pub record IsSized (n : ℕ) (item : RingItem) : Type 0 where
  pub map_len : length item.fragment_map ≡ n
  pub buf_len : length item.fragments ≡ n

-- An entry of the window: `has_fragments` counts its marks, and it wants more fragments.
pub record IsOpen (k n : ℕ) (item : RingItem) : Type 0 where
  pub counted : item.has_fragments ≡ count_set n item.fragment_map 0
  pub partial : item.has_fragments < k
  pub unsent : item.fragment_to_send_idx < k

-- The entry that `process_packet` is working on may have all that it wants.
pub record IsBusy (k n : ℕ) (item : RingItem) : Type 0 where
  pub counted : item.has_fragments ≡ count_set n item.fragment_map 0
  pub at_most : item.has_fragments ≤ k
  pub sent : item.fragment_to_send_idx ≤ k

-- The `j`-th entry of the window, oldest first.
abbrev pub nth : Core → ℕ → RingItem
nth a j = a.rx_ring ((a.rx_ring_front + j) % 40)

-- The last `fresh` entries of the window hold the consecutive blocks before `next`. All its entries
-- are open, but the `x`-th may be busy.
pub record Window (x fresh next k n : ℕ) (ring : ℕ → RingItem) (front alloc : ℕ) : Type 0 where
  pub front_in : front < 40
  pub alloc_in : alloc ≤ 40
  pub sized : (i : ℕ) → IsSized n (ring i)
  pub blocks :
      (j : ℕ)
      → j < alloc
      → alloc ≤ j + fresh
      → (ring ((front + j) % 40)).block_idx + alloc ≡ next + j
  pub opened : (j : ℕ) → j < alloc → j ≢ x → IsOpen k n (ring ((front + j) % 40))
  pub busy : x < alloc → IsBusy k n (ring ((front + x) % 40))

abbrev pub HasWindow : ℕ → ℕ → ℕ → ℕ → ℕ → Core → Type 0
HasWindow x fresh next k n c = Window x fresh next k n c.rx_ring c.rx_ring_front c.rx_ring_alloc

-- Between packets no entry is busy: 40 is the position of none.
abbrev pub nobody : ℕ
nobody = 40

-- Before the first block of a session the window is empty.
abbrev pub IsKnown : Core → Type 0
IsKnown a =
    ((a.last_known_block ≡ no_block) × (a.rx_ring_alloc ≡ 0)) ⊎ (a.last_known_block ≤ max_block_idx)

pub record InSession (k n : ℕ) (a : Core) : Type 0 where
  pub has_code : HasCode k n a
  pub window : HasWindow nobody 40 (suc a.last_known_block) k n a
  pub known : IsKnown a

-- Before the first session packet there is no code, and every data packet is refused.
pub record IsIdle (a : Core) : Type 0 where
  pub no_code : a.fec_p ≡ none
  pub no_k : a.fec_k ≡ negsuc 0
  pub no_n : a.fec_n ≡ negsuc 0

abbrev pub IsValid : Aggregator → Type 0
IsValid a = IsIdle (core a) ⊎ ((k : ℕ) × (n : ℕ) × InSession k n (core a))
