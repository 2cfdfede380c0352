-- ===== src/Aggregator/Valid/Flush.antt =====
-- A complete block is decoded, sent and dropped, after the blocks before it.
use open_prlx.Prelude.{
  ℕ, zero, suc, ◌+◌, ◌-◌, ◌%◌, ◌≤◌, ◌≡◌, refl, ap, subst, ◌∙◌, some, List, arith, ==_iff, pos_part,
  lt→ltb, sub_ℕ, ◌^◌,
}
use open_prlx.Wire.{Bytes, mod_n, rx_ring_size}
use open_prlx.Aggregator.{Aggregator, Fec, front_item}
use open_prlx.Aggregator.Order.{Sends, Sends-widen, Sends-trans, next_of, floor_of}
use open_prlx.Aggregator.Order.Sending.{send_rest-Sends}
use open_prlx.Aggregator.Order.Dropping.{flush_blocks-Sends}
use open_prlx.Aggregator.Recover.{send_rest, flush_blocks, finish_block, flush_and_decode}
use open_prlx.Aggregator.Send.{send_next}
use open_prlx.Aggregator.Valid.{InSession, core}
use open_prlx.Aggregator.Valid.Moves.{update_self}
use open_prlx.Aggregator.Valid.Working.{Working}
use open_prlx.Aggregator.Valid.Finish.{
  sent_one, IsAt, SendsOn, SendsOn-trans, IsAt-SendsOn, IsBusy-at, send_next-Working,
  send_next-SendsOn, core-send_next, flush_blocks-Working, rounds-eq,
}
use open_prlx.Aggregator.Valid.Decode.{remove_front-some, recover-some}

module _ (fec_decode : Fec → List Bytes → List ℕ → List Bytes) where
  send_rest-Working :
      (left : ℕ) {x k n : ℕ} (a : Aggregator) (i : ℕ)
      → IsAt x (core a) i
      → left + (a.rx_ring i).fragment_to_send_idx ≤ k
      → Working x k n (core a)
      → Working x k n (core (send_rest left a i)) × SendsOn i (core a) (core (send_rest left a i))
  unfolding send_rest
  send_rest-Working zero a i at h w = (w, record { front = refl; alloc = refl; counter = refl })
  send_rest-Working (suc left) {x} {k} {n} a i at h w =
      let on = send_next-SendsOn a i in
      let (w', on') =
        send_rest-Working left (send_next a i) i (IsAt-SendsOn on at)
          (omega (arith, cursor, w.has_code.k_le, w.has_code.n_byte))
          (send_next-Working a i at (omega arith) w) in
      (w', SendsOn-trans on on')
    where
      cursor :
          ((send_next a i).rx_ring i).fragment_to_send_idx
          ≡ ((a.rx_ring i).fragment_to_send_idx + 1) % 2 ^ 8
      cursor =
          ap (λ c. (c.rx_ring i).fragment_to_send_idx) (core-send_next a i)
          ∙ ap (λ it. it.fragment_to_send_idx) (update_self a.rx_ring i (sent_one (a.rx_ring i)))

  finish_block-some :
      {k n : ℕ} (a : Aggregator) (i : ℕ)
      → IsAt 0 (core a) i
      → Working 0 k n (core a)
      → (a.rx_ring i).has_fragments ≡ k
      → (b : Aggregator) × (finish_block fec_decode a i ≡ some b)
        × InSession k n (core b)
        × Sends (next_of (front_item a)) a.sent (floor_of (core b)) b.sent
  unfolding finish_block
  finish_block-some {k} {n} a i at w full =
      let from = (a.rx_ring i).fragment_to_send_idx in
      let left = pos_part a.fec_k - from in
      let (b, q, w', r, same) = recover-some fec_decode left a i from at w full in
      let at' = IsAt-SendsOn r.on at in
      let sent = (IsBusy-at (core a) i at w).sent in
      let rounds : left + (b.rx_ring i).fragment_to_send_idx ≤ k =
        omega (arith, sent, r.cursor, ap pos_part w.has_code.k_eq) in
      let (w'', on) = send_rest-Working left b i at' rounds w' in
      let at'' = IsAt-SendsOn on at' in
      let (c, q', s, dropped) =
        remove_front-some (send_rest left b i) (omega (arith, at''.0)) w'' in
      (
        c,
        rw
            (
              lt→ltb 0 a.rx_ring_alloc at.0,
              (==_iff i a.rx_ring_front).1 (at.1 ∙ omega (arith, w.window.front_in)),
            )
            (rw q q'),
        s,
        Sends-trans
            (Sends-widen (omega (arith, ap next_of (at_front a at w), r.cursor, r.block))
              (omega (
                arith,
                (IsBusy-at (core (send_rest left b i)) i at'' w'').sent,
                ap next_of (at_front (send_rest left b i) at'' w''),
                ap (λ it. it.block_idx) (at_front (send_rest left b i) at'' w''),
                w.has_code.k_le,
                w.has_code.n_byte,
              ))
              (subst
                (λ l.
                  Sends (next_of (b.rx_ring i)) l (next_of ((send_rest left b i).rx_ring i))
                    (send_rest left b i).sent)
                same
                (send_rest-Sends left b i
                  (omega (arith, rounds, w.has_code.k_le, w.has_code.n_byte)))))
            dropped,
      )
    where
      at_front :
          (d : Aggregator) → IsAt 0 (core d) i → Working 0 k n (core d) → d.rx_ring i ≡ front_item d
      at_front d here v = ap d.rx_ring (here.1 ∙ omega (arith, v.window.front_in))

  pub flush_and_decode-some :
      {x k n : ℕ} (a : Aggregator) (i : ℕ)
      → IsAt x (core a) i
      → Working x k n (core a)
      → (a.rx_ring i).has_fragments ≡ k
      → (b : Aggregator) × (flush_and_decode fec_decode a i ≡ some b)
        × InSession k n (core b)
        × Sends (next_of (front_item a)) a.sent (floor_of (core b)) b.sent
  unfolding flush_and_decode
  flush_and_decode-some {x} {k} {n} a i at w full =
      let v = w.window in
      let (w', fl) = flush_blocks-Working x a at.0 w in
      let rounds : mod_n (sub_ℕ i a.rx_ring_front) rx_ring_size ≡ x =
        ap (λ l. mod_n (sub_ℕ l a.rx_ring_front) rx_ring_size) at.1
        ∙ rounds-eq a.rx_ring_front x v.front_in (omega (arith, v.alloc_in)) in
      let (b, q, s, more) =
        finish_block-some (flush_blocks x a) i
          (omega (arith, fl.alloc), at.1 ∙ omega (arith, fl.front)) w'
          (ap (λ ring. (ring i).has_fragments) fl.ring ∙ full) in
      (
        b,
        ap (λ r. finish_block fec_decode (flush_blocks r a) i) rounds ∙ q,
        s,
        Sends-trans (flush_blocks-Sends x a at.0 w) more,
      )
