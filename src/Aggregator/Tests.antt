-- ===== src/Aggregator/Tests.antt =====
-- Runs of the aggregator's functions on small inputs, with toy decryption and repetition as the
-- code of the fragments.
use open_prlx.Prelude.{
  ℕ, ◌<◌, get_or, suc, zero, ◌≡◌, ◌⊎◌, ◌==◌, inl, inr, ap, ap₂, ◌∙◌, refl, true, false, Option,
  some, [], ◌∷◌, ◌++◌, arith, replicate, ◌>>=◌, if◌then◌else◌, ltb, length, none, take,
}
use open_prlx.Wire.{Bytes, same_bytes}
use open_prlx.Aggregator.{Aggregator, new}
use mathlib.Core.List.{Mem}
use open_prlx.Aggregator.Prompt.{payload_of, process_fragment-next}
use open_prlx.Aggregator.Valid.{InSession}
use open_prlx.Aggregator.KeyFile.{new_from_file, new_from_file-new}
use open_prlx.Aggregator.Ring.{get_block_ring_idx}
use open_prlx.Aggregator.Packet.{init_fec, process_packet, process_fragment}
use open_prlx.Aggregator.Toy.{toy, toy-HasTag, fresh, session, session-InSession, data_packet}
use open_prlx.Aggregator.Valid.{IsValid, core}
use open_prlx.Aggregator.Valid.Working.{Working}
use open_prlx.Aggregator.Valid.Restores.{apply_fec-restores}
use open_prlx.Aggregator.Recover.{apply_fec}
use open_prlx.Aggregator.Identity.{identity}
use open_prlx.Aggregator.Adopted.{Adopted, process_packet-Adopted}
use open_prlx.Aggregator.Restore.{Decodes, absent}
use open_prlx.Aggregator.Count.{count_set}
use open_prlx.Aggregator.Valid.Lookup.{Located, get_block_ring_idx-Located}
use open_prlx.Aggregator.Order.{Sends, floor_of}
use open_prlx.Aggregator.Order.Runs.{Run, start, packet, Run-Sends}
use open_prlx.Aggregator.Valid.Packets.{Safe, process_packet-IsValid}

process_packet-IsValid_example : Safe (process_packet toy session (data_packet 1))
process_packet-IsValid_example =
    process_packet-IsValid toy toy-HasTag session (inr (1, 2, session-InSession)) (data_packet 1)

get_block_ring_idx-Located_example :
    (r : Aggregator × Option ℕ) × (get_block_ring_idx session 3 ≡ some r) × Located session 3 1 2 r
get_block_ring_idx-Located_example =
    get_block_ring_idx-Located session 3 session-InSession (omega arith)

nonzero : (i : ℕ) → (suc i == 0) ≡ false
nonzero i = ground arith

toy-Decodes : (b : Bytes) → Decodes toy.fec_decode (record { k = 1; n = 2 }) (λ i. b)
unfolding absent
toy-Decodes b [] e p = absurd (omega (arith, e))
toy-Decodes b (zero ∷ []) e p = refl
toy-Decodes b (suc i ∷ []) e p = rw (nonzero i) refl
toy-Decodes b (x ∷ y ∷ index) e p = absurd (omega (arith, e))

-- Block 0, of which the parity fragment has arrived.
abbrev half : Aggregator
half = record session {
  rx_ring = λ i. record {
    block_idx = 0;
    fragments = [] ∷ (8 ∷ []) ∷ [];
    fragment_map = false ∷ true ∷ [];
    fragment_to_send_idx = 0;
    has_fragments = 1;
  };
  rx_ring_alloc = 1;
  last_known_block = 0;
}

half-Working : Working 0 1 2 (core half)
unfolding count_set init_fec
half-Working = record {
  has_code = session-InSession.has_code;
  window = record {
    front_in = omega arith;
    alloc_in = omega arith;
    sized = λ i. record { map_len = refl; buf_len = refl };
    blocks = λ j p q. omega arith;
    opened = λ j p ne. absurd (omega (arith, p, ne));
    busy = λ p. record { counted = refl; at_most = omega arith; sent = omega arith };
  };
  known = omega arith;
}

half_here :
    (j : ℕ)
    → j < 2
    → get_or (half.rx_ring 0).fragment_map j false ≡ true
    → get_or (half.rx_ring 0).fragments j [] ≡ 8 ∷ []
half_here zero p e = absurd (cc e)
half_here (suc zero) p e = refl
half_here (suc (suc j)) p e = absurd (omega arith)

apply_fec-restores_example :
    (b : Aggregator) × (apply_fec toy.fec_decode half 0 ≡ some b)
    × ((j : ℕ) → j < 1 → get_or (b.rx_ring 0).fragments j [] ≡ 8 ∷ [])
unfolding init_fec
apply_fec-restores_example =
    apply_fec-restores toy.fec_decode half 0 (omega arith, omega arith) half-Working refl
      (λ i. 8 ∷ []) (toy-Decodes (8 ∷ [])) half_here

fresh-IsValid : IsValid fresh
unfolding new
fresh-IsValid = inl (record { no_code = refl; no_k = refl; no_n = refl })

-- Epoch 5, channel 9, one data fragment in two, and a key of ones.
abbrev session_packet : Bytes
session_packet =
    (2 ∷ [])
    ++ (replicate 40 0
        ++ ((0 ∷ 0 ∷ 0 ∷ 0 ∷ 0 ∷ 0 ∷ 0 ∷ 5 ∷ 0 ∷ 0 ∷ 0 ∷ 9 ∷ 1 ∷ 1 ∷ 2 ∷ []) ++ replicate 32 1))

abbrev after_session : Safe (process_packet toy fresh session_packet)
after_session = process_packet-IsValid toy toy-HasTag fresh fresh-IsValid session_packet

process_packet-Adopted_example :
    (identity after_session.0 ≡ identity fresh)
    ⊎ Adopted toy (identity fresh) session_packet after_session.0
process_packet-Adopted_example =
    process_packet-Adopted toy fresh session_packet after_session.0 after_session.1

-- The first data fragment of block 0, and the same packet once more.
abbrev after_first : Safe (process_packet toy session (data_packet 0))
after_first =
    process_packet-IsValid toy toy-HasTag session (inr (1, 2, session-InSession)) (data_packet 0)

abbrev after_second : Safe (process_packet toy after_first.0 (data_packet 0))
after_second = process_packet-IsValid toy toy-HasTag after_first.0 after_first.2 (data_packet 0)

-- A data packet keeps the key.
same_key :
    (a b : Aggregator) (f : ℕ)
    → process_packet toy a (data_packet f) ≡ some b
    → b.session_key ≡ a.session_key
same_key a b f e = elim (process_packet-Adopted toy a (data_packet f) b e) [
  | inl same ↦ ap (λ i. i.session_key) same
  | inr other ↦ absurd (omega (arith, other.kind))
]

abbrev two_packets :
    Run toy session (after_second.0.sent ++ (after_first.0.sent ++ [])) after_second.0
unfolding init_fec new same_bytes
two_packets =
    let first = same_key session after_first.0 0 after_first.1 in
    let second = same_key after_first.0 after_second.0 0 after_second.1 in
    packet (packet start (data_packet 0) after_first.1 (ap (same_bytes session.session_key) first))
      (data_packet 0) after_second.1 (ap₂ same_bytes first (second ∙ first))

Run-Sends_example :
    IsValid after_second.0
    × Sends
        (floor_of (core session))
        []
        (floor_of (core after_second.0))
        (after_second.0.sent ++ (after_first.0.sent ++ []))
Run-Sends_example = Run-Sends toy toy-HasTag (inr (1, 2, session-InSession)) two_packets

-- A key file of 66 bytes.
new_from_file-new_example : new_from_file (some (replicate 66 5)) 0 1 true ≡ (
    some (replicate 66 5) >>= λ key.
    if ltb (length key) 64 then none else some (new (take 64 key) 0 1 true))
new_from_file-new_example = new_from_file-new (some (replicate 66 5)) 0 1 true

-- Block 0 with two data fragments and a parity one, of which the second has arrived.
abbrev waiting : Aggregator
waiting = record (init_fec fresh 2 3) {
  rx_ring = λ i. record {
    block_idx = 0;
    fragments = [] ∷ (0 ∷ 0 ∷ 1 ∷ 8 ∷ []) ∷ [] ∷ [];
    fragment_map = false ∷ true ∷ false ∷ [];
    fragment_to_send_idx = 0;
    has_fragments = 1;
  };
  rx_ring_alloc = 1;
  last_known_block = 0;
}

waiting-InSession : InSession 2 3 (core waiting)
unfolding count_set init_fec
waiting-InSession = record {
  has_code = record {
    code = refl;
    k_eq = refl;
    n_eq = refl;
    k_pos = omega arith;
    k_le = omega arith;
    n_byte = omega arith;
  };
  window = record {
    front_in = omega arith;
    alloc_in = omega arith;
    sized = λ i. record { map_len = refl; buf_len = refl };
    blocks = λ j p q. omega arith;
    opened = λ j p ne. record { counted = refl; partial = omega arith; unsent = omega arith };
    busy = λ p. absurd (omega (arith, p));
  };
  known = inr (omega arith);
}

process_fragment-next_example :
    (b : Aggregator) × (process_fragment toy waiting 0 0 (0 ∷ 0 ∷ 2 ∷ 8 ∷ 9 ∷ []) ≡ some b)
    × Mem
        (record {
          block = 0;
          fragment = 0;
          payload = payload_of waiting.dcb (0 ∷ 0 ∷ 2 ∷ 8 ∷ 9 ∷ []);
        })
        b.sent
unfolding init_fec
process_fragment-next_example =
    process_fragment-next toy waiting 0 (0 ∷ 0 ∷ 2 ∷ 8 ∷ 9 ∷ []) waiting-InSession (omega arith)
      (omega arith) refl refl
