-- ===== src/Aggregator/Kept.antt =====
-- Properties of the aggregator's state that each elementary change of `process_packet` keeps, and so
-- what becomes of a fragment. The loops and the ring are here; the packets are in the child module.
pub mod Packets
use open_prlx.Prelude.{
  ◌>>=◌, if_both, ℕ, zero, suc, ◌+◌, ◌-◌, ◌%◌, ◌^◌, ◌≤◌, ◌≡◌, refl, if◌then◌else◌, ltb, Bool, true,
  false, Option, none, some, List, get_or, length,
}
use open_prlx.Wire.{Bytes, rx_ring_size, max_fec_payload}
use open_prlx.Aggregator.{Aggregator, Fec, update, front_item}
use open_prlx.Aggregator.Send.{send_packet, send_held, send_front, send_next}
use open_prlx.Aggregator.Ring.{
  find_block, take_free, take_oldest, rx_ring_push, start_block, push_blocks, count_new_blocks,
  is_processed, admit_block, get_block_ring_idx, advance, remove_front,
}
use open_prlx.Aggregator.Recover.{write_out, send_rest, flush_blocks}
use open_prlx.Aggregator.Packet.{send_ready, store_fragment}

-- The elementary changes: counters and the ring's indexes, a call of `send_packet`, what an entry
-- says of its block, a fragment stored, and fragments recovered.
pub record IsKept (fec_decode : Fec → List Bytes → List ℕ → List Bytes) (P : Aggregator → Type 0)
    : Type 0 where
  pub counts :
      (a : Aggregator) (front alloc last dec_err dec_ok recovered bad override : ℕ)
      → P a
      → P (record a {
        rx_ring_front = front;
        rx_ring_alloc = alloc;
        last_known_block = last;
        count_p_dec_err = dec_err;
        count_p_dec_ok = dec_ok;
        count_p_fec_recovered = recovered;
        count_p_bad = bad;
        count_p_override = override;
      })
  pub sends : (a : Aggregator) (i f : ℕ) → P a → P (send_packet a i f)
  pub marks :
      (a : Aggregator) (i block cursor has : ℕ) (m : List Bool)
      → P a
      → P (record a {
        rx_ring = update a.rx_ring i (record (a.rx_ring i) {
          block_idx = block;
          fragment_map = m;
          fragment_to_send_idx = cursor;
          has_fragments = has;
        });
      })
  pub stores :
      (a : Aggregator) (i f : ℕ) (plain : Bytes)
      → length plain ≤ max_fec_payload
      → P a
      → P (store_fragment a i f plain)
  pub decodes :
      (a : Aggregator) (i : ℕ) (p : Fec) (out index : List ℕ) (blocks : List Bytes)
      → P a
      → P (record a {
        rx_ring = update a.rx_ring i (record (a.rx_ring i) {
          fragments = write_out (a.rx_ring i).fragments out (fec_decode p blocks index);
        });
      })

-- A result, if there is one, has the property.
abbrev pub Holds {ℓ} : {A : Type ℓ} → (A → Type 0) → Option A → Type 0
Holds P none = Unit
Holds P (some a) = P a

pub Holds-bind :
    {A B : Type 0} (P : B → Type 0) (o : Option A) (f : A → Option B)
    → ((x : A) → Holds P (f x))
    → Holds P (o >>= f)
Holds-bind P none f h = tt
Holds-bind P (some x) f h = h x

module _ {fec_decode : Fec → List Bytes → List ℕ → List Bytes} {P : Aggregator → Type 0}
    (kept : IsKept fec_decode P) where
  kept-send_held : (left : ℕ) (a : Aggregator) (f : ℕ) → P a → P (send_held left a f)
  unfolding send_held
  kept-send_held zero a f h = h
  kept-send_held (suc left) a f h =
      let held = get_or (front_item a).fragment_map f false in
      kept-send_held left (if held then send_packet a a.rx_ring_front f else a) (f + 1) (
        if_both P held (send_packet a a.rx_ring_front f) a (λ _. kept.sends a a.rx_ring_front f h)
          (λ _. h))

  kept-send_front : (a : Aggregator) → P a → P (send_front a)
  unfolding send_front
  kept-send_front a h = kept-send_held _ a (front_item a).fragment_to_send_idx h

  kept-send_next : (a : Aggregator) (i : ℕ) → P a → P (send_next a i)
  unfolding send_next
  kept-send_next a i h =
      let b = send_packet a i (a.rx_ring i).fragment_to_send_idx in
      kept.marks b i _ _ _ _ (kept.sends a i (a.rx_ring i).fragment_to_send_idx h)

  kept-advance : (a : Aggregator) → P a → P (advance a)
  unfolding advance
  kept-advance a h = kept.counts a _ _ _ _ _ _ _ _ h

  pub kept-remove_front : (a : Aggregator) → P a → Holds P (remove_front a)
  unfolding remove_front
  kept-remove_front a h =
      if_both (Holds P) (ltb 0 a.rx_ring_alloc) (some (advance a)) none (λ _. kept-advance a h)
        (λ _. tt)

  kept-rx_ring_push : (a : Aggregator) → P a → P (rx_ring_push a).0
  unfolding rx_ring_push take_free take_oldest
  kept-rx_ring_push a h =
      if_both (λ r. P r.0) (ltb a.rx_ring_alloc rx_ring_size) (take_free a) (take_oldest a)
        (λ _. kept.counts a _ _ _ _ _ _ _ _ h)
        (λ _.
          kept.counts (send_front overridden) _ _ _ _ _ _ _ _
            (kept-send_front overridden (kept.counts a _ _ _ _ _ _ _ _ h)))
    where
      overridden : Aggregator
      overridden = record a { count_p_override = (a.count_p_override + 1) % 2 ^ 32 }

  kept-push_blocks :
      (left block new i : ℕ) (a : Aggregator) (r : Option ℕ)
      → P a
      → P (push_blocks left block new i a r).0
  unfolding push_blocks start_block
  kept-push_blocks zero block new i a r h = h
  kept-push_blocks (suc left) block new i a r h =
      let (b, idx) = rx_ring_push a in
      kept-push_blocks left block new (i + 1)
        (start_block b idx ((block + i + 1 + 2 ^ 64 - new) % 2 ^ 64)) (some idx)
        (kept.marks b idx _ _ _ _ (kept-rx_ring_push a h))

  pub kept-get_block_ring_idx :
      (a : Aggregator) (block : ℕ) → P a → Holds (λ r. P r.0) (get_block_ring_idx a block)
  unfolding get_block_ring_idx admit_block
  kept-get_block_ring_idx a block h =
      go (find_block a.rx_ring block a.rx_ring_alloc a.rx_ring_front)
    where
      new : ℕ
      new = count_new_blocks a block

      known : Aggregator
      known = record a { last_known_block = block }

      Q : Aggregator × Option ℕ → Type 0
      Q r = P r.0

      go :
          (o : Option ℕ)
          → Holds Q (elim o [ some r ↦ some (a, some r) | none ↦ admit_block a block ])
      go (some r) = h
      go none =
          if_both (Holds Q) (is_processed a block) (some (a, none)) _ (λ _. h)
            (λ _.
              if_both (Holds Q) (ltb 0 new) (some (push_blocks new block new 0 known none)) none
                (λ _. kept-push_blocks new block new 0 known none (kept.counts a _ _ _ _ _ _ _ _ h))
                (λ _. tt))

  pub kept-send_ready : (left : ℕ) (a : Aggregator) (i : ℕ) → P a → P (send_ready left a i)
  unfolding send_ready
  kept-send_ready zero a i h = h
  kept-send_ready (suc left) a i h =
      if_both P _ (send_ready left (send_next a i) i) a
        (λ _. kept-send_ready left (send_next a i) i (kept-send_next a i h)) (λ _. h)

  pub kept-send_rest : (left : ℕ) (a : Aggregator) (i : ℕ) → P a → P (send_rest left a i)
  unfolding send_rest
  kept-send_rest zero a i h = h
  kept-send_rest (suc left) a i h = kept-send_rest left (send_next a i) i (kept-send_next a i h)

  pub kept-flush_blocks : (left : ℕ) (a : Aggregator) → P a → P (flush_blocks left a)
  unfolding flush_blocks
  kept-flush_blocks zero a h = h
  kept-flush_blocks (suc left) a h =
      kept-flush_blocks left (advance (send_front a))
        (kept-advance (send_front a) (kept-send_front a h))
