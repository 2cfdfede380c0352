-- ===== src/Aggregator.antt =====
-- src/wifi/WFBProcessor.h: the state of the class `Aggregator`, which puts the fragments of the
-- radio's blocks in order, recovers lost ones, and hands the payloads on.
pub mod Send
pub mod Ring
pub mod Recover
pub mod Packet
pub mod Count
pub mod Valid
pub mod Planning
pub mod Restore
pub mod Kept
pub mod Identity
pub mod Whole
pub mod Adopted
pub mod Order
pub mod KeyFile
pub mod Prompt
pub mod Toy
mod Tests
use open_prlx.Prelude.{
  ℕ, ◌+◌, ◌-◌, ◌^◌, ◌==◌, if◌then◌else◌, Bool, false, true, Option, none, List, [], ltb, leb, ℤ,
  negsuc, pos_part, neg_part, get_or, take, drop, replicate,
}
use open_prlx.Wire.{Bytes}

-- `fec_t`, of which the aggregator keeps a pointer; `fec_new` makes it from `k` and `n`.
pub record Fec : Type 0 where
  pub k : ℕ
  pub n : ℕ

-- `rx_ring_item_t`. The map's bytes are 0 or 1.
pub record RingItem : Type 0 where
  pub block_idx : ℕ
  pub fragments : List Bytes
  pub fragment_map : List Bool
  pub fragment_to_send_idx : ℕ
  pub has_fragments : ℕ

-- One call of `send_packet`: the fragment it is about, and what it gave to `dcb`, if anything: the
-- buffer from the payload on, and the packet's size.
pub record Sent : Type 0 where
  pub block : ℕ
  pub fragment : ℕ
  pub payload : Option (Bytes × ℕ)

-- `rx_ring` is the array of RX_RING_SIZE items. `sent` is not a member: it logs the calls of
-- `send_packet` that the running `process_packet` has made, the last one first.
pub record Aggregator : Type 0 where
  pub fec_p : Option Fec
  pub fec_k : ℤ
  pub fec_n : ℤ
  pub seq : ℕ
  pub rx_ring : ℕ → RingItem
  pub rx_ring_front : ℕ
  pub rx_ring_alloc : ℕ
  pub last_known_block : ℕ
  pub epoch : ℕ
  pub channel_id : ℕ
  pub rx_secretkey : Bytes
  pub tx_publickey : Bytes
  pub session_key : Bytes
  pub count_p_all : ℕ
  pub count_p_dec_err : ℕ
  pub count_p_dec_ok : ℕ
  pub count_p_fec_recovered : ℕ
  pub count_p_lost : ℕ
  pub count_p_bad : ℕ
  pub count_p_override : ℕ
  pub dcb : Bool
  pub sent : List Sent

-- `(uint64_t)-1`, the value of `last_known_block` before the first block.
abbrev pub no_block : ℕ
no_block = 2 ^ 64 - 1

-- Comparisons of an unsigned byte with `fec_k` or `fec_n`, which are `int`.
abbrev pub lt_int : ℕ → ℤ → Bool
lt_int x z = ltb (x + neg_part z) (pos_part z)

abbrev pub ge_int : ℕ → ℤ → Bool
ge_int x z = leb (pos_part z) (x + neg_part z)

abbrev pub eq_int : ℕ → ℤ → Bool
eq_int x z = (x + neg_part z) == pos_part z

-- An `int` that takes part in `uint64_t` arithmetic.
abbrev pub to_u64 : ℤ → ℕ
to_u64 z = if neg_part z == 0 then pos_part z else 2 ^ 64 - neg_part z

abbrev pub update : (ℕ → RingItem) → ℕ → RingItem → ℕ → RingItem
update ring i item j = if j == i then item else ring j

abbrev pub front_item : Aggregator → RingItem
front_item a = a.rx_ring a.rx_ring_front

-- The array before `init_fec` writes it; no index is used before then.
abbrev pub blank_item : RingItem
blank_item = record {
  block_idx = 0;
  fragments = [];
  fragment_map = [];
  fragment_to_send_idx = 0;
  has_fragments = 0;
}

-- The constructor from a 64-byte keypair in memory.
unfoldable pub new : Bytes → ℕ → ℕ → Bool → Aggregator
new keypair epoch channel_id dcb = record {
  fec_p = none;
  fec_k = negsuc 0;
  fec_n = negsuc 0;
  seq = 0;
  rx_ring = λ i. blank_item;
  rx_ring_front = 0;
  rx_ring_alloc = 0;
  last_known_block = no_block;
  epoch = epoch;
  channel_id = channel_id;
  rx_secretkey = take 32 keypair;
  tx_publickey = take 32 (drop 32 keypair);
  session_key = replicate 32 0;
  count_p_all = 0;
  count_p_dec_err = 0;
  count_p_dec_ok = 0;
  count_p_fec_recovered = 0;
  count_p_lost = 0;
  count_p_bad = 0;
  count_p_override = 0;
  dcb = dcb;
  sent = [];
}
