-- ===== src/Aggregator/Order/Sending.antt =====
-- The loops that send fragments, and the order of their calls.
use open_prlx.Prelude.{
  ℕ, zero, suc, ◌+◌, ◌-◌, ◌*◌, ◌≤◌, ◌<◌, ◌≡◌, refl, ap, ◌∙◌, subst, false, arith, Bool-cases, inl,
  inr, get_or, pos_part, pos, ◌&&◌,
}
use open_prlx.Aggregator.{Aggregator, front_item, lt_int}
use open_prlx.Aggregator.Send.{send_packet, send_held, send_front, send_next}
use open_prlx.Aggregator.Recover.{send_rest}
use open_prlx.Aggregator.Packet.{send_ready}
use open_prlx.Aggregator.Valid.Moves.{core-send_packet, update_self}
use open_prlx.Aggregator.Valid.Finish.{core-send_next, sent_one, lt_int_iff, and_left}
use open_prlx.Aggregator.Order.{Sends, nothing, one_more, Sends-widen, Sends-trans, next_of}

-- A call of `send_packet`.
pub send_packet-Sends :
    (a : Aggregator) (i f : ℕ)
    → Sends
        ((a.rx_ring i).block_idx * 256 + f)
        a.sent
        ((a.rx_ring i).block_idx * 256 + f + 1)
        (send_packet a i f).sent
unfolding send_packet
send_packet-Sends a i f =
    one_more {mid = (a.rx_ring i).block_idx * 256 + f} _ (nothing (omega arith)) (omega arith)
      (omega arith)

send_held-Sends :
    (left : ℕ) (a : Aggregator) (block f : ℕ)
    → (front_item a).block_idx ≡ block
    → Sends (block * 256 + f) a.sent (block * 256 + f + left) (send_held left a f).sent
unfolding send_held
send_held-Sends zero a block f e = nothing (omega arith)
send_held-Sends (suc left) a block f e =
    elim (Bool-cases (get_or (front_item a).fragment_map f false)) [
      | inl held ↦
          let b = send_packet a a.rx_ring_front f in
          rw (held, send_held)
            (Sends-trans
              (subst (λ l. Sends (l * 256 + f) a.sent (l * 256 + f + 1) b.sent) e
                (send_packet-Sends a a.rx_ring_front f))
              (Sends-widen (omega arith) (omega arith) (
                send_held-Sends left b block (f + 1) (
                  ap (λ c. (c.rx_ring c.rx_ring_front).block_idx)
                    (core-send_packet a a.rx_ring_front f)
                  ∙ e))))
      | inr gap ↦
          rw (gap, send_held)
            (Sends-widen (omega arith) (omega arith) (send_held-Sends left a block (f + 1) e))
    ]

-- The oldest block's fragments come from its next one on, and before the next block.
pub send_front-Sends :
    {k : ℕ} (a : Aggregator)
    → a.fec_k ≡ pos k
    → k < 256
    → (front_item a).fragment_to_send_idx ≤ k
    → Sends (next_of (front_item a)) a.sent (suc (front_item a).block_idx * 256) (send_front a).sent
unfolding send_front
send_front-Sends {k} a e byte h = Sends-widen (omega arith) (omega (arith, ap pos_part e)) (
    send_held-Sends (pos_part a.fec_k - (front_item a).fragment_to_send_idx) a
      (front_item a).block_idx (front_item a).fragment_to_send_idx refl)

pub item-send_next : (a : Aggregator) (i : ℕ) → (send_next a i).rx_ring i ≡ sent_one (a.rx_ring i)
item-send_next a i = ap (λ c. c.rx_ring i) (core-send_next a i) ∙ update_self a.rx_ring i _

-- A block's next fragment is sent, and the one after it is next.
pub send_next-Sends :
    (a : Aggregator) (i : ℕ)
    → (a.rx_ring i).fragment_to_send_idx < 255
    → Sends
        (next_of (a.rx_ring i))
        a.sent
        (next_of ((send_next a i).rx_ring i))
        (send_next a i).sent
unfolding send_next
send_next-Sends a i h =
    Sends-widen (omega arith) (omega (arith, ap next_of (item-send_next a i)))
      (send_packet-Sends a i (a.rx_ring i).fragment_to_send_idx)

pub send_ready-Sends :
    (left : ℕ) {k : ℕ} (a : Aggregator) (i : ℕ)
    → a.fec_k ≡ pos k
    → k < 256
    → Sends
        (next_of (a.rx_ring i))
        a.sent
        (next_of ((send_ready left a i).rx_ring i))
        (send_ready left a i).sent
unfolding send_ready
send_ready-Sends zero a i e byte = nothing (omega arith)
send_ready-Sends (suc left) {k} a i e byte =
    elim (Bool-cases (
      lt_int (a.rx_ring i).fragment_to_send_idx a.fec_k
      && get_or (a.rx_ring i).fragment_map (a.rx_ring i).fragment_to_send_idx false)) [
        | inr stop ↦ rw stop (nothing (omega arith))
        | inl go ↦
            let more : (a.rx_ring i).fragment_to_send_idx < k =
              (lt_int_iff _ e).0 (and_left _ _ go) in
            rw go (
              Sends-trans (send_next-Sends a i (omega (arith, more, byte))) (
                send_ready-Sends left (send_next a i) i (ap (λ c. c.fec_k) (core-send_next a i) ∙ e)
                  byte))
      ]

pub send_rest-Sends :
    (left : ℕ) (a : Aggregator) (i : ℕ)
    → left + (a.rx_ring i).fragment_to_send_idx < 256
    → Sends
        (next_of (a.rx_ring i))
        a.sent
        (next_of ((send_rest left a i).rx_ring i))
        (send_rest left a i).sent
unfolding send_rest
send_rest-Sends zero a i h = nothing (omega arith)
send_rest-Sends (suc left) a i h = Sends-trans (send_next-Sends a i (omega arith)) (
    send_rest-Sends left (send_next a i) i
      (omega (arith, ap (λ it. it.fragment_to_send_idx) (item-send_next a i))))
