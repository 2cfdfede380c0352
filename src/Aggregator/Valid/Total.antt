-- ===== src/Aggregator/Valid/Total.antt =====
-- A plaintext fragment of a session: no `assert` fails, and the invariant is kept.
use open_prlx.Prelude.{
  ℕ, ◌+◌, ◌-◌, ◌%◌, ◌^◌, ◌≤◌, ◌<◌, ◌≡◌, ◌≢◌, inl, inr, refl, ap, sym, ◌∙◌, subst, false, List,
  Option, some, arith, ◌==◌, ==_iff, Bool-cases, ℕ_discrete, pos_part, get_or, if◌then◌else◌,
}
use open_prlx.Wire.{Bytes, max_block_idx}
use open_prlx.Aggregator.{Aggregator, Sent, front_item, eq_int}
use open_prlx.Aggregator.Order.{
  Sends, nothing, Sends-widen, Sends-trans, next_of, floor_of, floor_some,
}
use open_prlx.Aggregator.Order.Sending.{send_ready-Sends}
use open_prlx.Aggregator.Ring.{remove_front}
use open_prlx.Aggregator.Packet.{
  Library, send_ready, stored, store_fragment, decode_if_full, after_store, process_fragment,
}
use open_prlx.Aggregator.Valid.{InSession, IsOpen, core, nth}
use open_prlx.Aggregator.Valid.Lookup.{get_block_ring_idx-Located}
use open_prlx.Aggregator.Valid.Moves.{update_self, update_ne}
use open_prlx.Aggregator.Valid.Working.{Working, settle, begin, store_fragment-Working}
use open_prlx.Aggregator.Valid.Finish.{
  IsAt, IsAt-SendsOn, IsBusy-at, send_ready-Working, lt_int_iff, eq_int_iff, eq_int_ne,
}
use open_prlx.Aggregator.Valid.Decode.{remove_front-some}
use open_prlx.Aggregator.Valid.Flush.{flush_and_decode-some}

-- The call comes to an end in a session, having sent fragments in order from the position `lo` on,
-- and up to where it sends next.
abbrev pub Ends : ℕ → ℕ → ℕ → List Sent → Option Aggregator → Type 0
Ends k n lo log r =
    (b : Aggregator) × (r ≡ some b)
    × InSession k n (core b)
    × Sends lo log (floor_of (core b)) b.sent

Ends-after :
    {k n lo mid : ℕ} {log log' : List Sent} {r : Option Aggregator}
    → Sends lo log mid log'
    → Ends k n mid log' r
    → Ends k n lo log r
Ends-after p (b, e, s, q) = (b, e, s, Sends-trans p q)

-- A fragment that is stored does not change what is sent next.
kept :
    (a : Aggregator) (i f : ℕ) (plain : Bytes) (l : ℕ)
    → next_of ((store_fragment a i f plain).rx_ring l) ≡ next_of (a.rx_ring l)
unfolding store_fragment stored
kept a i f plain l = elim (ℕ_discrete l i) [
  | yes e ↦ rw e (ap next_of (update_self a.rx_ring i _))
  | no ne ↦ ap next_of (update_ne a.rx_ring i _ l ne)
]

module _ (library : Library) {k n : ℕ} where
  -- A busy entry that has not all it wants is open.
  still-IsOpen :
      {x : ℕ} (a : Aggregator) (i : ℕ)
      → IsAt x (core a) i
      → Working x k n (core a)
      → (a.rx_ring i).fragment_to_send_idx < k
      → (a.rx_ring i).has_fragments ≢ k
      → IsOpen k n (nth (core a) x)
  still-IsOpen {x} a i at w more short =
      let b = IsBusy-at (core a) i at w in
      subst (λ l. IsOpen k n (a.rx_ring l)) at.1
        (record { counted = b.counted; partial = omega (arith, b.at_most); unsent = more })

  decode_if_full-Ends :
      {x : ℕ} (a : Aggregator) (i : ℕ)
      → IsAt x (core a) i
      → Working x k n (core a)
      → (a.rx_ring i).fragment_to_send_idx < k
      → Ends k n (next_of (front_item a)) a.sent (decode_if_full library a i)
  unfolding decode_if_full
  decode_if_full-Ends {x} a i at w more =
      let z = w.has_code.k_eq in
      elim (Bool-cases (eq_int (a.rx_ring i).has_fragments a.fec_k)) [
        | inl full ↦
            rw ((lt_int_iff (a.rx_ring i).fragment_to_send_idx z).1 more, full)
              (flush_and_decode-some library.fec_decode a i at w
                ((eq_int_iff (a.rx_ring i).has_fragments z).0 full))
        | inr short ↦
            rw ((lt_int_iff (a.rx_ring i).fragment_to_send_idx z).1 more, short)
              (
                a,
                refl,
                settle (core a) at.0
                    (still-IsOpen a i at w more (eq_int_ne (a.rx_ring i).has_fragments z short)) w,
                nothing (
                    omega (
                      arith,
                      floor_some ((a.last_known_block + 1) % 2 ^ 64) (core a) (omega (arith, at.0)),
                    )),
              )
      ]

  pub oldest_Ends :
      {x : ℕ} (b : Aggregator) (i : ℕ)
      → x ≡ 0
      → IsAt x (core b) i
      → Working x k n (core b)
      → Ends k n (next_of (b.rx_ring i)) b.sent (
          if eq_int (b.rx_ring i).fragment_to_send_idx b.fec_k
          then remove_front b
          else decode_if_full library b i)
  oldest_Ends {x} b i x_zero at w =
      let z = w.has_code.k_eq in
      let cursor = (b.rx_ring i).fragment_to_send_idx in
      let w_zero = subst (λ y. Working y k n (core b)) x_zero w in
      let front = ap b.rx_ring first in
      elim (Bool-cases (eq_int cursor b.fec_k)) [
        | inl all_sent ↦
            let r = remove_front-some b (omega (arith, at.0)) w_zero in
            rw all_sent (
              r.0,
              r.1,
              r.2,
              Sends-widen
                  (omega (
                    arith,
                    ap (λ it. it.block_idx) front,
                    (IsBusy-at (core b) i at w).sent,
                    w.has_code.k_le,
                    w.has_code.n_byte,
                  ))
                  (omega arith) r.3,
            )
        | inr some_left ↦ rw some_left (
            Ends-after (nothing (omega (arith, ap next_of front))) (
              decode_if_full-Ends b i at w
                (omega (arith, (IsBusy-at (core b) i at w).sent, eq_int_ne cursor z some_left))))
      ]
    where
      first : i ≡ b.rx_ring_front
      first = at.1 ∙ omega (arith, w.window.front_in)

  after_store-Ends :
      {x : ℕ} (a : Aggregator) (i : ℕ)
      → IsAt x (core a) i
      → Working x k n (core a)
      → (a.rx_ring i).fragment_to_send_idx < k
      → Ends k n (next_of (front_item a)) a.sent (after_store library a i)
  unfolding after_store
  after_store-Ends {x} a i at w more = elim (Bool-cases (i == a.rx_ring_front)) [
    | inr behind ↦ rw behind (decode_if_full-Ends a i at w more)
    | inl first ↦
        let z = w.has_code.k_eq in
        let left = pos_part a.fec_k - (a.rx_ring i).fragment_to_send_idx in
        let x_zero : x ≡ 0 = omega (
          arith,
          at.0,
          at.1,
          (==_iff i a.rx_ring_front).0 first,
          w.window.front_in,
          w.window.alloc_in,
        ) in
        let (w', on) = send_ready-Working left a i at w in
        let front = ap a.rx_ring ((==_iff i a.rx_ring_front).0 first) in
        rw first (
          Ends-after
            (Sends-widen (omega (arith, ap next_of front)) (omega arith)
              (send_ready-Sends left a i z (omega (arith, w.has_code.k_le, w.has_code.n_byte))))
            (oldest_Ends (send_ready left a i) i x_zero (IsAt-SendsOn on at) w'))
  ]

  -- The entry of the fragment's block has been found.
  new_fragment_Ends :
      (b : Aggregator) (j i f : ℕ) (plain : Bytes)
      → InSession k n (core b)
      → j < b.rx_ring_alloc
      → i ≡ (b.rx_ring_front + j) % 40
      → f < n
      → Ends k n (floor_of (core b)) b.sent (
          if get_or (b.rx_ring i).fragment_map f false
          then some b
          else after_store library (store_fragment b i f plain) i)
  unfolding store_fragment stored
  new_fragment_Ends b j i f plain s inside at fits =
      elim (Bool-cases (get_or (b.rx_ring i).fragment_map f false)) [
        | inl seen ↦ rw seen (b, refl, s, nothing (omega arith))
        | inr clear ↦
            let w = begin (core b) j inside s in
            let open_now : IsOpen k n (b.rx_ring i) =
              subst (λ l. IsOpen k n (b.rx_ring l)) (sym at)
                (s.window.opened j inside (omega (arith, s.window.alloc_in))) in
            let c = store_fragment b i f plain in
            rw clear (
              Ends-after
                (nothing (
                  omega (
                    arith,
                    floor_some ((b.last_known_block + 1) % 2 ^ 64) (core b) (omega (arith, inside)),
                    kept b i f plain b.rx_ring_front,
                  )))
                (after_store-Ends (store_fragment b i f plain) i (inside, at)
                  (store_fragment-Working j b i f plain w inside at fits clear)
                  (omega (
                    arith,
                    open_now.unsent,
                    ap (λ it. it.fragment_to_send_idx)
                        (update_self b.rx_ring i (stored (b.rx_ring i) f plain)),
                  ))))
      ]

  pub process_fragment-Ends :
      (a : Aggregator) (block f : ℕ) (plain : Bytes)
      → InSession k n (core a)
      → block ≤ max_block_idx
      → f < n
      → Ends k n (floor_of (core a)) a.sent (process_fragment library a block f plain)
  unfolding process_fragment
  process_fragment-Ends a block f plain s small fits =
      let (r, q, l) = get_block_ring_idx-Located a block s small in
      elim l.place [
        | inl (e, old) ↦ rw (q ∙ ap some e, process_fragment) (a, refl, s, nothing (omega arith))
        | inr (j, inside, e, same) ↦
            let i = (r.0.rx_ring_front + j) % 40 in
            rw (q ∙ ap (λ o. some (r.0, o)) e, process_fragment)
              (Ends-after l.sends (new_fragment_Ends r.0 j i f plain l.session inside refl fits))
      ]
