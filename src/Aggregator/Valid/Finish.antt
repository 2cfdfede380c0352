-- ===== src/Aggregator/Valid/Finish.antt =====
-- What follows the storing of a fragment keeps the invariant, and passes every `assert`.
use open_prlx.Prelude.{
  ℕ, zero, suc, ◌+◌, ◌%◌, ◌^◌, ◌<◌, ◌≡◌, ◌≢◌, ◌↔◌, inl, inr, refl, ap, sym, ◌∙◌, subst, Bool, true,
  false, arith, leb, ◌&&◌, Bool-cases, get_or, sub_ℕ, pos, ℤ,
}
use open_prlx.Wire.{mod_n, rx_ring_size}
use open_prlx.Aggregator.{Aggregator, RingItem, lt_int, eq_int}
use open_prlx.Aggregator.Send.{send_packet, send_front, send_next}
use open_prlx.Aggregator.Ring.{advance}
use open_prlx.Aggregator.Recover.{flush_blocks}
use open_prlx.Aggregator.Packet.{send_ready}
use open_prlx.Aggregator.Valid.{IsBusy, Core, core}
use open_prlx.Aggregator.Valid.Moves.{core-send_front, advance-HasWindow, MovesTo, update_self}
use open_prlx.Aggregator.Valid.Working.{Working, write_item, write_item-Working}

pub and_left : (p q : Bool) → (p && q) ≡ true → p ≡ true
and_left true q e = refl
and_left false q e = e

-- The entry at position `x`, whose index is `i`, has sent one more fragment.
abbrev pub sent_one : RingItem → RingItem
sent_one item = record item { fragment_to_send_idx = (item.fragment_to_send_idx + 1) % 2 ^ 8 }

abbrev pub IsAt : ℕ → Core → ℕ → Type 0
IsAt x c i = (x < c.rx_ring_alloc) × (i ≡ (c.rx_ring_front + x) % 40)

pub IsBusy-at :
    {x k n : ℕ} (c : Core) (i : ℕ) → IsAt x c i → Working x k n c → IsBusy k n (c.rx_ring i)
IsBusy-at {k = k} {n = n} c i at w =
    subst (λ l. IsBusy k n (c.rx_ring l)) (sym at.1) (w.window.busy at.0)

sent_one-Working :
    {x k n : ℕ} (c : Core) (i : ℕ)
    → IsAt x c i
    → (c.rx_ring i).fragment_to_send_idx < k
    → Working x k n c
    → Working x k n (write_item c i (sent_one (c.rx_ring i)))
sent_one-Working {x} {k} {n} c i at more w =
    let b = IsBusy-at c i at w in
    write_item-Working x c i _ w (inl refl) at.0 at.1
      (record { map_len = (w.window.sized i).map_len; buf_len = (w.window.sized i).buf_len }) refl
      (record {
        counted = b.counted;
        at_most = b.at_most;
        sent = omega (arith, w.has_code.k_le, w.has_code.n_byte);
      })

pub core-send_next :
    (a : Aggregator) (i : ℕ) → core (send_next a i) ≡ write_item (core a) i (sent_one (a.rx_ring i))
unfolding send_next send_packet
core-send_next a i = refl

pub send_next-Working :
    {x k n : ℕ} (a : Aggregator) (i : ℕ)
    → IsAt x (core a) i
    → (a.rx_ring i).fragment_to_send_idx < k
    → Working x k n (core a)
    → Working x k n (core (send_next a i))
send_next-Working {x} {k} {n} a i at more w =
    subst (Working x k n) (sym (core-send_next a i)) (sent_one-Working (core a) i at more w)

-- What the loops that send leave alone besides: where the entry is, and how much it has.
pub record SendsOn (i : ℕ) (c d : Core) : Type 0 where
  pub front : d.rx_ring_front ≡ c.rx_ring_front
  pub alloc : d.rx_ring_alloc ≡ c.rx_ring_alloc
  pub counter : (d.rx_ring i).has_fragments ≡ (c.rx_ring i).has_fragments

pub send_next-SendsOn : (a : Aggregator) (i : ℕ) → SendsOn i (core a) (core (send_next a i))
send_next-SendsOn a i =
    let e = core-send_next a i in
    record {
      front = ap (λ c. c.rx_ring_front) e;
      alloc = ap (λ c. c.rx_ring_alloc) e;
      counter =
          ap (λ c. (c.rx_ring i).has_fragments) e
          ∙ ap (λ it. it.has_fragments) (update_self a.rx_ring i _);
    }

pub SendsOn-trans : {i : ℕ} {c d e : Core} → SendsOn i c d → SendsOn i d e → SendsOn i c e
SendsOn-trans p q = record {
  front = q.front ∙ p.front;
  alloc = q.alloc ∙ p.alloc;
  counter = q.counter ∙ p.counter;
}

pub IsAt-SendsOn : {x i : ℕ} {c d : Core} → SendsOn i c d → IsAt x c i → IsAt x d i
IsAt-SendsOn {x} {i} p at = (omega (arith, p.alloc), at.1 ∙ ap (λ f. (f + x) % 40) (sym p.front))

-- With a code in place, comparisons with `fec_k` are comparisons with `k`.
pub lt_int_iff : {k : ℕ} {z : ℤ} (s : ℕ) → z ≡ pos k → (lt_int s z ≡ true) ↔ (s < k)
lt_int_iff s e = rw e (ground arith)

pub eq_int_iff : {k : ℕ} {z : ℤ} (s : ℕ) → z ≡ pos k → (eq_int s z ≡ true) ↔ (s ≡ k)
eq_int_iff s e = rw e (ground arith)

pub eq_int_ne : {k : ℕ} {z : ℤ} (s : ℕ) → z ≡ pos k → eq_int s z ≡ false → s ≢ k
eq_int_ne s e h same = cc (h, (eq_int_iff s e).1 same)

-- The loop over the fragments that are ready stops at `k`, or at a gap before.
pub send_ready-Working :
    (left : ℕ) {x k n : ℕ} (a : Aggregator) (i : ℕ)
    → IsAt x (core a) i
    → Working x k n (core a)
    → Working x k n (core (send_ready left a i)) × SendsOn i (core a) (core (send_ready left a i))
unfolding send_ready
send_ready-Working zero a i at w = (w, record { front = refl; alloc = refl; counter = refl })
send_ready-Working (suc left) {x} {k} {n} a i at w =
    elim (Bool-cases (
      lt_int (a.rx_ring i).fragment_to_send_idx a.fec_k
      && get_or (a.rx_ring i).fragment_map (a.rx_ring i).fragment_to_send_idx false)) [
        | inr stop ↦ rw stop (w, record { front = refl; alloc = refl; counter = refl })
        | inl go ↦
            let more : (a.rx_ring i).fragment_to_send_idx < k =
              (lt_int_iff _ w.has_code.k_eq).0 (and_left _ _ go) in
            let on = send_next-SendsOn a i in
            let r =
              send_ready-Working left (send_next a i) i (IsAt-SendsOn on at)
                (send_next-Working a i at more w) in
            rw go (r.0, SendsOn-trans on r.1)
      ]

-- The number of rounds is the entry's position.
pub rounds-eq :
    (front x : ℕ) → front < 40 → x < 40 → mod_n (sub_ℕ ((front + x) % 40) front) rx_ring_size ≡ x
unfolding mod_n
rounds-eq front x h p = elim (Bool-cases (leb front ((front + x) % 40))) [
  | inl ahead ↦ rw ahead (ground arith)
  | inr behind ↦ rw behind (ground arith)
]

pub advance-Working :
    {y x k n : ℕ} (a : Aggregator)
    → MovesTo y x
    → 0 < a.rx_ring_alloc
    → Working y k n (core a)
    → Working x k n (core (advance a))
unfolding advance
advance-Working a m h w = record {
  has_code = w.has_code;
  window = advance-HasWindow a m h w.window;
  known = w.known;
}

-- To send what the blocks before position `x` hold, and to drop them, moves the entry there to the
-- front and leaves the entries as they are.
pub record Flushed (x : ℕ) (c d : Core) : Type 0 where
  pub ring : d.rx_ring ≡ c.rx_ring
  pub front : d.rx_ring_front ≡ (c.rx_ring_front + x) % 40
  pub alloc : d.rx_ring_alloc + x ≡ c.rx_ring_alloc

flush_one-Flushed :
    (a : Aggregator) → 0 < a.rx_ring_alloc → Flushed 1 (core a) (core (advance (send_front a)))
unfolding advance mod_n
flush_one-Flushed a h =
    let e = core-send_front a in
    record {
      ring = ap (λ c. c.rx_ring) e;
      front = omega (arith, ap (λ c. c.rx_ring_front) e);
      alloc = omega (arith, ap (λ c. c.rx_ring_alloc) e);
    }

pub flush_blocks-Working :
    (x : ℕ) {k n : ℕ} (a : Aggregator)
    → x < a.rx_ring_alloc
    → Working x k n (core a)
    → Working 0 k n (core (flush_blocks x a)) × Flushed x (core a) (core (flush_blocks x a))
unfolding flush_blocks
flush_blocks-Working zero a inside w =
    (w, record { ring = refl; front = omega (arith, w.window.front_in); alloc = omega arith })
flush_blocks-Working (suc x) {k} {n} a inside w =
    let e = core-send_front a in
    let one = flush_one-Flushed a (omega arith) in
    let w' = subst (Working (suc x) k n) (sym e) w in
    let (last, rest) =
      flush_blocks-Working x (advance (send_front a)) (omega (arith, one.alloc)) (
        advance-Working (send_front a) (inl refl) (omega (arith, ap (λ c. c.rx_ring_alloc) e))
          w') in
    (
      last,
      record {
        ring = rest.ring ∙ one.ring;
        front = omega (arith, rest.front, one.front);
        alloc = omega (arith, rest.alloc, one.alloc);
      },
    )
