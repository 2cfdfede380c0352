-- ===== src/Aggregator/Recover.antt =====
-- `apply_fec` of src/wifi/WFBProcessor.cpp, and the part of `process_packet` that finishes a block
-- with enough fragments. `none` is a failed `assert`, or an array entry that is read unset.
use open_prlx.Prelude.{
  ℕ, zero, suc, ◌+◌, ◌-◌, ◌%◌, ◌^◌, ◌==◌, ◌&&◌, if◌then◌else◌, ltb, leb, Bool, true, false, Option,
  none, some, List, [], ◌∷◌, sub_ℕ, pos_part, get_or, set,
}
use open_prlx.Wire.{Bytes, mod_n, rx_ring_size}
use open_prlx.Aggregator.{Aggregator, RingItem, Fec, update}
use open_prlx.Aggregator.Send.{send_front, send_next}
use open_prlx.Aggregator.Ring.{advance, remove_front}

-- The arrays of `apply_fec`: `index`, `in_blocks`, and of `out_blocks` the fragments it points to.
pub record Plan : Type 0 where
  pub index : List ℕ
  pub in_blocks : List Bytes
  pub out : List ℕ

-- The inner loop `for (; j < fec_n; j++)` with `left` rounds to go.
unfoldable pub find_parity : List Bool → ℕ → ℕ → Option ℕ
find_parity m zero j = none
find_parity m (suc left) j = if get_or m j false then some j else find_parity m left (j + 1)

abbrev pub add_input : ℕ → Bytes → Option Plan → Option Plan
add_input j block none = none
add_input j block (some p) =
    some (record p { index = j ∷ p.index; in_blocks = block ∷ p.in_blocks })

abbrev pub add_output : ℕ → Option Plan → Option Plan
add_output i none = none
add_output i (some p) = some (record p { out = i ∷ p.out })

-- The outer loop with `left` rounds to go: the entries from `i` on.
unfoldable pub plan_from : RingItem → ℕ → ℕ → ℕ → ℕ → Option Plan
plan_from item n zero i j = some (record { index = []; in_blocks = []; out = [] })
plan_from item n (suc left) i j = elim (get_or item.fragment_map i false) [
  | true ↦ add_input i (get_or item.fragments i []) (plan_from item n left (i + 1) j)
  | false ↦ elim (find_parity item.fragment_map (n - j) j) [
    | none ↦ none
    | some j' ↦
        add_output i
          (add_input j' (get_or item.fragments j' []) (plan_from item n left (i + 1) (j' + 1)))
  ]
]

-- What `fec_decode` leaves in the blocks that `out_blocks` points to.
unfoldable pub write_out : List Bytes → List ℕ → List Bytes → List Bytes
write_out fragments (i ∷ out) (b ∷ blocks) = write_out (set fragments i b) out blocks
write_out fragments _ _ = fragments

-- The three loops over the data fragments of a block. They run from `f_idx` on, with `left` rounds
-- to go; `count_missing` is the inner one, over the map, which `apply_fec` leaves as it is.
unfoldable pub count_missing : ℕ → List Bool → ℕ → ℕ
count_missing zero m f_idx = 0
count_missing (suc left) m f_idx =
    (if get_or m f_idx false then 0 else 1) + count_missing left m (f_idx + 1)

unfoldable pub send_rest : ℕ → Aggregator → ℕ → Aggregator
send_rest zero a ring_idx = a
send_rest (suc left) a ring_idx = send_rest left (send_next a ring_idx) ring_idx

-- The loop `while (nrm > 0)`.
unfoldable pub flush_blocks : ℕ → Aggregator → Aggregator
flush_blocks zero a = a
flush_blocks (suc nrm) a = flush_blocks nrm (advance (send_front a))

module _ (fec_decode : Fec → List Bytes → List ℕ → List Bytes) where
  -- `apply_fec`, given the members `fec_p`, `fec_k` and `fec_n`: its four `assert`s, the loops that
  -- fill the arrays, and the decoding in place.
  unfoldable pub decode_into : Option Fec → ℕ → ℕ → Aggregator → ℕ → Option Aggregator
  decode_into none k n a ring_idx = none
  decode_into (some p) k n a ring_idx =
      let item = a.rx_ring ring_idx in
      if ltb 0 k && ltb 0 n && leb k n
      then elim (plan_from item n k 0 k) [
        | none ↦ none
        | some plan ↦ some (record a {
          rx_ring = update a.rx_ring ring_idx (record item {
            fragments = write_out item.fragments plan.out (fec_decode p plan.in_blocks plan.index);
          });
        })
      ]
      else none

  unfoldable pub apply_fec : Aggregator → ℕ → Option Aggregator
  apply_fec a ring_idx = decode_into a.fec_p (pos_part a.fec_k) (pos_part a.fec_n) a ring_idx

  -- The search for a data fragment that has not arrived.
  unfoldable pub recover : ℕ → Aggregator → ℕ → ℕ → Option Aggregator
  recover zero a ring_idx f_idx = some a
  recover (suc left) a ring_idx f_idx =
      let m = (a.rx_ring ring_idx).fragment_map in
      elim (get_or m f_idx false) [
        | true ↦ recover left a ring_idx (f_idx + 1)
        | false ↦ elim (apply_fec a ring_idx) [
          | none ↦ none
          | some b ↦ some (record b {
            count_p_fec_recovered =
                (b.count_p_fec_recovered + count_missing (suc left) m f_idx) % 2 ^ 32;
          })
        ]
      ]

  -- From the first `assert` on, for the block at the front.
  unfoldable pub finish_block : Aggregator → ℕ → Option Aggregator
  finish_block a ring_idx =
      if ltb 0 a.rx_ring_alloc && (ring_idx == a.rx_ring_front)
      then (let from = (a.rx_ring ring_idx).fragment_to_send_idx in
          let left = pos_part a.fec_k - from in
          elim (recover left a ring_idx from) [
            | none ↦ none
            | some b ↦ remove_front (send_rest left b ring_idx)
          ])
      else none

  -- Sends and drops the blocks before the complete one, then finishes that one.
  unfoldable pub flush_and_decode : Aggregator → ℕ → Option Aggregator
  flush_and_decode a ring_idx =
      finish_block (flush_blocks (mod_n (sub_ℕ ring_idx a.rx_ring_front) rx_ring_size) a) ring_idx
