-- ===== src/Aggregator/Prompt.antt =====
-- When the aggregator of src/wifi/WFBProcessor.cpp sends a fragment.
use open_prlx.Prelude.{
  get_or-set_self, [], replicate, not, none, ltb, drop, take, ◌++◌, Bool, ℕ, zero, suc, ◌-◌, ◌%◌,
  ◌<◌, ◌≡◌, refl, ap, sym, ◌∙◌, subst, true, false, List, ◌&&◌, Option, some, arith, ◌==◌, pos_part,
  get_or, if◌then◌else◌, if_true, if_false, length,
}
use mathlib.Core.List.{Mem, mem-cons_self, mem-cons_of_mem}
use open_prlx.Wire.{Bytes, be_to_host, wpacket_hdr_size, max_payload_size, max_fec_payload}
use open_prlx.Aggregator.{Aggregator, Sent, front_item, lt_int}
use open_prlx.Aggregator.Order.{Sends, nothing, one_more}
use open_prlx.Aggregator.Order.Sending.{send_ready-Sends}
use open_prlx.Aggregator.Send.{send_packet, send_next}
use open_prlx.Aggregator.Ring.{admit_block, find_block, get_block_ring_idx}
use open_prlx.Aggregator.Packet.{
  Library, send_ready, stored, store_fragment, after_store, process_fragment,
}
use open_prlx.Aggregator.Valid.{InSession, core}
use open_prlx.Aggregator.Valid.Moves.{update_self}
use open_prlx.Aggregator.Valid.Working.{begin, store_fragment-Working}
use open_prlx.Aggregator.Valid.Finish.{IsAt, IsAt-SendsOn, lt_int_iff, send_ready-Working}
use open_prlx.Aggregator.Valid.Total.{oldest_Ends}

-- What is in the log stays in it.
Sends-Mem :
    {lo : ℕ} {log : List Sent} {hi : ℕ} {log' : List Sent} (s : Sent)
    → Sends lo log hi log'
    → Mem s log
    → Mem s log'
Sends-Mem s (nothing h) m = m
Sends-Mem s (one_more t p f g) m = mem-cons_of_mem t (Sends-Mem s p m)

-- The search for the oldest block finds it at once.
find_block-front :
    (a : Aggregator) (block : ℕ)
    → 0 < a.rx_ring_alloc
    → (front_item a).block_idx ≡ block
    → find_block a.rx_ring block a.rx_ring_alloc a.rx_ring_front ≡ some a.rx_ring_front
unfolding find_block
find_block-front a block h e = at a.rx_ring_alloc h
  where
    at : (c : ℕ) → 0 < c → find_block a.rx_ring block c a.rx_ring_front ≡ some a.rx_ring_front
    at zero p = absurd (omega arith)
    at (suc c) p =
        if_true {b = (front_item a).block_idx == block} (some a.rx_ring_front) _ (ground (arith, e))

-- The fragment is stored, and it is the next one.
stored-ready :
    {k n : ℕ} (a : Aggregator) (f : ℕ) (plain : Bytes)
    → InSession k n (core a)
    → f < k
    → (front_item a).fragment_to_send_idx ≡ f
    → (lt_int
          ((store_fragment a a.rx_ring_front f plain).rx_ring a.rx_ring_front).fragment_to_send_idx
          a.fec_k
        && get_or
            ((store_fragment a a.rx_ring_front f plain).rx_ring a.rx_ring_front).fragment_map
            ((store_fragment a a.rx_ring_front f plain).rx_ring
              a.rx_ring_front).fragment_to_send_idx
            false)
      ≡ true
unfolding store_fragment stored
stored-ready {k} {n} a f plain s less e =
    rw (update_self a.rx_ring a.rx_ring_front (stored (front_item a) f plain)) (
      rw e (
        rw
          (get_or-set_self (front_item a).fragment_map f true false
            (omega (arith, less, (s.window.sized a.rx_ring_front).map_len, s.has_code.k_le)))
          (rw ((lt_int_iff f s.has_code.k_eq).1 less) refl)))

send_ready-first :
    (m : ℕ) (a : Aggregator) (i : ℕ)
    → (lt_int (a.rx_ring i).fragment_to_send_idx a.fec_k
        && get_or (a.rx_ring i).fragment_map (a.rx_ring i).fragment_to_send_idx false)
      ≡ true
    → send_ready (suc m) a i ≡ send_ready m (send_next a i) i
unfolding send_ready
send_ready-first m a i e = if_true (send_ready m (send_next a i) i) a e

-- What `dcb` is given of a plaintext fragment, in a buffer that is filled up with zeros: the payload,
-- if its size is in bounds and the packet is no padding.
abbrev pub payload_of : Bool → Bytes → Option (Bytes × ℕ)
payload_of dcb plain =
    let fragment = plain ++ replicate (max_fec_payload - length plain) 0 in
    let size = be_to_host (take 2 (drop 1 fragment)) in
    if not (ltb max_payload_size size) && (get_or fragment 0 0 % 2 == 0) && dcb
    then some (drop wpacket_hdr_size fragment, size)
    else none

-- The call that sends it.
first_sent :
    {k n : ℕ} (a : Aggregator) (f : ℕ) (plain : Bytes)
    → InSession k n (core a)
    → f < k
    → (front_item a).fragment_to_send_idx ≡ f
    → Mem
        (record {
          block = (front_item a).block_idx;
          fragment = f;
          payload = payload_of a.dcb plain;
        })
        (send_next (store_fragment a a.rx_ring_front f plain) a.rx_ring_front).sent
unfolding store_fragment stored send_next send_packet
first_sent {k} {n} a f plain s less e =
    rw (update_self a.rx_ring a.rx_ring_front (stored (front_item a) f plain)) (
      rw e (
        rw
          (get_or-set_self (front_item a).fragments f
            (plain ++ replicate (max_fec_payload - length plain) 0) []
            (omega (arith, less, (s.window.sized a.rx_ring_front).buf_len, s.has_code.k_le)))
          mem-cons_self))

-- It is still there when the loop ends.
sent_ready :
    {k n : ℕ} (a : Aggregator) (f : ℕ) (plain : Bytes) (left : ℕ)
    → InSession k n (core a)
    → f < k
    → (front_item a).fragment_to_send_idx ≡ f
    → left ≡ suc (k - f - 1)
    → Mem
        (record {
          block = (front_item a).block_idx;
          fragment = f;
          payload = payload_of a.dcb plain;
        })
        (send_ready left (store_fragment a a.rx_ring_front f plain) a.rx_ring_front).sent
unfolding store_fragment send_next send_packet
sent_ready {k} {n} a f plain left s less e l =
    let i = a.rx_ring_front in
    let c = store_fragment a i f plain in
    let m = k - f - 1 in
    let t : Sent = record {
      block = (front_item a).block_idx;
      fragment = f;
      payload = payload_of a.dcb plain;
    } in
    subst (λ b. Mem t b.sent)
      (sym
        (ap (λ o. send_ready o c i) l ∙ send_ready-first m c i (stored-ready a f plain s less e)))
      (Sends-Mem t
        (send_ready-Sends m (send_next c i) i s.has_code.k_eq
          (omega (arith, s.has_code.k_le, s.has_code.n_byte)))
        (first_sent a f plain s less e))

found_front :
    (a : Aggregator)
    → 0 < a.rx_ring_alloc
    → get_block_ring_idx a (front_item a).block_idx ≡ some (a, some a.rx_ring_front)
unfolding get_block_ring_idx
found_front a some_block =
    ap
      (λ o. elim o as (λ _. Option (Aggregator × Option ℕ)) [
        | some i ↦ some (a, some i)
        | none ↦ admit_block a (front_item a).block_idx
      ])
      (find_block-front a (front_item a).block_idx some_block refl)

process_fragment-front :
    (library : Library) (a : Aggregator) (f : ℕ) (plain : Bytes)
    → 0 < a.rx_ring_alloc
    → get_or (front_item a).fragment_map f false ≡ false
    → process_fragment library a (front_item a).block_idx f plain
      ≡ after_store library (store_fragment a a.rx_ring_front f plain) a.rx_ring_front
unfolding process_fragment
process_fragment-front library a f plain some_block clear =
    rw (found_front a some_block, process_fragment)
      (if_false {b = get_or (front_item a).fragment_map f false} (some a) _ clear)

-- A fragment of the oldest block of the window that has not come before, and is the one which that
-- block sends next, is sent at once: the call of `process_packet` ends with `send_packet` called for
-- it, on what its plaintext holds.
pub process_fragment-next :
    (library : Library) {k n : ℕ} (a : Aggregator) (f : ℕ) (plain : Bytes)
    → InSession k n (core a)
    → 0 < a.rx_ring_alloc
    → f < k
    → (front_item a).fragment_to_send_idx ≡ f
    → get_or (front_item a).fragment_map f false ≡ false
    → (b : Aggregator) × (process_fragment library a (front_item a).block_idx f plain ≡ some b)
      × Mem
          (record {
            block = (front_item a).block_idx;
            fragment = f;
            payload = payload_of a.dcb plain;
          })
          b.sent
unfolding after_store store_fragment stored
process_fragment-next library {k} {n} a f plain s some_block less e clear =
    let i = a.rx_ring_front in
    let c = store_fragment a i f plain in
    let left = pos_part c.fec_k - (c.rx_ring i).fragment_to_send_idx in
    let at : IsAt 0 (core c) i = (some_block, omega (arith, s.window.front_in)) in
    let w =
      store_fragment-Working 0 a i f plain (begin (core a) 0 some_block s) some_block at.1
        (omega (arith, less, s.has_code.k_le)) clear in
    let (w', on) = send_ready-Working left c i at w in
    let left_eq : left ≡ suc (k - f - 1) = omega (
      arith,
      ap pos_part s.has_code.k_eq,
      ap (λ it. it.fragment_to_send_idx) (update_self a.rx_ring i (stored (a.rx_ring i) f plain)),
      e,
      less,
    ) in
    let (b, r, s', q) = oldest_Ends library (send_ready left c i) i refl (IsAt-SendsOn on at) w' in
    (
      b,
      process_fragment-front library a f plain some_block clear
          ∙ if_true {b = i == i} _ _ (ground arith)
          ∙ r,
      Sends-Mem _ q (sent_ready a f plain left s less e left_eq),
    )
