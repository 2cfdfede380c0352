-- ===== src/Aggregator/Kept/Packets.antt =====
-- The finishing of a block, and a whole data packet, keep each property that their elementary
-- changes keep.
use open_prlx.Prelude.{
  slice?, if_both, ℕ, zero, suc, ◌+◌, ◌-◌, ◌/◌, ◌%◌, ◌^◌, ◌==◌, ◌&&◌, ◌≤◌, if◌then◌else◌, ltb, leb,
  leb→le, Bool, true, false, Option, none, some, List, pos_part, get_or, sub_ℕ, take, drop, length,
}
use open_prlx.Wire.{
  Bytes, mod_n, rx_ring_size, wblock_hdr_size, max_fec_payload, max_block_idx, be_to_host,
}
use open_prlx.Aggregator.{Aggregator, Fec, update, ge_int, eq_int}
use open_prlx.Aggregator.Ring.{get_block_ring_idx, remove_front}
use open_prlx.Aggregator.Recover.{
  Plan, plan_from, write_out, count_missing, send_rest, flush_blocks, decode_into, apply_fec,
  recover, finish_block, flush_and_decode,
}
use open_prlx.Aggregator.Packet.{
  Library, count_bad, count_dec_ok, count_dec_err, send_ready, store_fragment, decode_if_full,
  after_store, process_fragment, process_decrypted, open_data, process_data,
}
use open_prlx.Aggregator.Kept.{
  IsKept, Holds, Holds-bind, kept-remove_front, kept-get_block_ring_idx, kept-send_ready,
  kept-send_rest, kept-flush_blocks,
}

module _ {fec_decode : Fec → List Bytes → List ℕ → List Bytes} {P : Aggregator → Type 0}
    (kept : IsKept fec_decode P) where
  kept-decode_into :
      (p : Option Fec) (k n : ℕ) (a : Aggregator) (r : ℕ)
      → P a
      → Holds P (decode_into fec_decode p k n a r)
  unfolding decode_into
  kept-decode_into none k n a r h = tt
  kept-decode_into (some p) k n a r h =
      if_both (Holds P) (ltb 0 k && ltb 0 n && leb k n) _ none
        (λ _. planned (plan_from (a.rx_ring r) n k 0 k)) (λ _. tt)
    where
      planned :
          (o : Option Plan)
          → Holds P (elim o [
            | none ↦ none
            | some plan ↦ some (record a {
              rx_ring = update a.rx_ring r (record (a.rx_ring r) {
                fragments =
                    write_out
                      (a.rx_ring r).fragments
                      plan.out
                      (fec_decode p plan.in_blocks plan.index);
              });
            })
          ])
      planned none = tt
      planned (some plan) = kept.decodes a r p plan.out plan.index plan.in_blocks h

  kept-recover :
      (left : ℕ) (a : Aggregator) (r f : ℕ) → P a → Holds P (recover fec_decode left a r f)
  unfolding recover apply_fec
  kept-recover zero a r f h = h
  kept-recover (suc left) a r f h =
      marked (kept-recover left a r (f + 1) h) (get_or (a.rx_ring r).fragment_map f false)
    where
      decoded : Option Aggregator → Option Aggregator
      decoded none = none
      decoded (some b) = some (record b {
        count_p_fec_recovered =
            (b.count_p_fec_recovered + count_missing (suc left) (a.rx_ring r).fragment_map f)
            % 2 ^ 32;
      })

      kept-decoded : (o : Option Aggregator) → Holds P o → Holds P (decoded o)
      kept-decoded none q = tt
      kept-decoded (some b) q = kept.counts b _ _ _ _ _ _ _ _ q

      marked :
          Holds P (recover fec_decode left a r (f + 1))
          → (m : Bool)
          → Holds P (elim m [
            | true ↦ recover fec_decode left a r (f + 1)
            | false ↦ decoded (apply_fec fec_decode a r)
          ])
      marked q true = q
      marked q false =
          kept-decoded (apply_fec fec_decode a r)
            (kept-decode_into a.fec_p (pos_part a.fec_k) (pos_part a.fec_n) a r h)

  kept-finish_block : (a : Aggregator) (r : ℕ) → P a → Holds P (finish_block fec_decode a r)
  unfolding finish_block
  kept-finish_block a r h =
      if_both (Holds P) (ltb 0 a.rx_ring_alloc && (r == a.rx_ring_front))
        (after (recover fec_decode left a r from)) none
        (λ _. kept-after (recover fec_decode left a r from) (kept-recover left a r from h))
        (λ _. tt)
    where
      from : ℕ
      from = (a.rx_ring r).fragment_to_send_idx

      left : ℕ
      left = pos_part a.fec_k - from

      after : Option Aggregator → Option Aggregator
      after none = none
      after (some b) = remove_front (send_rest left b r)

      kept-after : (o : Option Aggregator) → Holds P o → Holds P (after o)
      kept-after none q = tt
      kept-after (some b) q =
          kept-remove_front kept (send_rest left b r) (kept-send_rest kept left b r q)

  pub kept-flush_and_decode :
      (a : Aggregator) (r : ℕ) → P a → Holds P (flush_and_decode fec_decode a r)
  unfolding flush_and_decode
  kept-flush_and_decode a r h =
      let rounds = mod_n (sub_ℕ r a.rx_ring_front) rx_ring_size in
      kept-finish_block (flush_blocks rounds a) r (kept-flush_blocks kept rounds a h)

module _ (library : Library) {P : Aggregator → Type 0} (kept : IsKept library.fec_decode P) where
  kept-decode_if_full : (a : Aggregator) (r : ℕ) → P a → Holds P (decode_if_full library a r)
  unfolding decode_if_full
  kept-decode_if_full a r h =
      if_both (Holds P) _ (flush_and_decode library.fec_decode a r) (some a)
        (λ _. kept-flush_and_decode kept a r h) (λ _. h)

  kept-after_store : (a : Aggregator) (r : ℕ) → P a → Holds P (after_store library a r)
  unfolding after_store
  kept-after_store a r h =
      let left = pos_part a.fec_k - (a.rx_ring r).fragment_to_send_idx in
      let b = send_ready left a r in
      let q = kept-send_ready kept left a r h in
      if_both (Holds P) (r == a.rx_ring_front)
        (if eq_int (b.rx_ring r).fragment_to_send_idx b.fec_k
          then remove_front b
          else decode_if_full library b r)
        (decode_if_full library a r)
        (λ _.
          if_both (Holds P) _ (remove_front b) (decode_if_full library b r)
            (λ _. kept-remove_front kept b q) (λ _. kept-decode_if_full b r q))
        (λ _. kept-decode_if_full a r h)

  kept-process_fragment :
      (a : Aggregator) (block f : ℕ) (plain : Bytes)
      → length plain ≤ max_fec_payload
      → P a
      → Holds P (process_fragment library a block f plain)
  unfolding process_fragment
  kept-process_fragment a block f plain fits h =
      go (get_block_ring_idx a block) (kept-get_block_ring_idx kept a block h)
    where
      go :
          (o : Option (Aggregator × Option ℕ))
          → Holds (λ r. P r.0) o
          → Holds P (elim o [
            | none ↦ none
            | some (b, none) ↦ some b
            | some (b, some r) ↦
                if get_or (b.rx_ring r).fragment_map f false
                then some b
                else after_store library (store_fragment b r f plain) r
          ])
      go none q = tt
      go (some (b, none)) q = q
      go (some (b, some r)) q =
          if_both (Holds P) (get_or (b.rx_ring r).fragment_map f false) (some b)
            (after_store library (store_fragment b r f plain) r) (λ _. q)
            (λ _. kept-after_store (store_fragment b r f plain) r (kept.stores b r f plain fits q))

  kept-process_decrypted :
      (a : Aggregator) (nonce : ℕ) (plain : Bytes)
      → length plain ≤ max_fec_payload
      → P a
      → Holds P (process_decrypted library a nonce plain)
  unfolding process_decrypted count_bad
  kept-process_decrypted a nonce plain fits h =
      let fragment = process_fragment library a (nonce / 2 ^ 8) (nonce % 2 ^ 8) plain in
      let bad = kept.counts a _ _ _ _ _ _ _ _ h in
      if_both (Holds P) (ltb max_block_idx (nonce / 2 ^ 8)) (some (count_bad a))
        (if ge_int (nonce % 2 ^ 8) a.fec_n then some (count_bad a) else fragment) (λ _. bad)
        (λ _.
          if_both (Holds P) (ge_int (nonce % 2 ^ 8) a.fec_n) (some (count_bad a)) fragment
            (λ _. bad) (λ _. kept-process_fragment a (nonce / 2 ^ 8) (nonce % 2 ^ 8) plain fits h))

  pub kept-process_data :
      (a : Aggregator) (buf : Bytes) → P a → Holds P (process_data library a buf)
  unfolding process_data open_data count_dec_ok count_dec_err
  kept-process_data a buf h = Holds-bind P (slice? buf 0 wblock_hdr_size) _ λ header.
      Holds-bind P (slice? buf wblock_hdr_size (length buf - wblock_hdr_size)) _ λ ciphertext.
        let nonce = take 8 (drop 1 header) in
        opened (be_to_host nonce) (library.aead_open ciphertext header nonce a.session_key)
    where
      opened : (nonce : ℕ) (o : Option Bytes) → Holds P (open_data library a nonce o)
      opened nonce none = kept.counts a _ _ _ _ _ _ _ _ h
      opened nonce (some plain) =
          if_both (Holds P) (leb (length plain) max_fec_payload)
            (process_decrypted library (count_dec_ok a) nonce plain) none
            (λ fits.
              kept-process_decrypted (count_dec_ok a) nonce plain
                (leb→le (length plain) max_fec_payload fits) (kept.counts a _ _ _ _ _ _ _ _ h))
            (λ _. tt)
