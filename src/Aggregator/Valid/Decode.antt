-- ===== src/Aggregator/Valid/Decode.antt =====
-- Recovery of a block that has `k` fragments: it always has enough later ones for its gaps.
use open_prlx.Prelude.{
  ℕ, zero, suc, ◌+◌, ◌-◌, ◌*◌, ◌%◌, ◌≤◌, ◌<◌, ◌≡◌, inl, inr, refl, ap, subst, ◌∙◌, false, some,
  List, arith, Bool-cases, pos_part, get_or, set, length, length-set, lt→ltb, le→leb, ◌^◌, [], ◌∷◌,
}
use open_prlx.Wire.{Bytes}
use open_prlx.Aggregator.{Aggregator, RingItem, Fec, front_item, update}
use open_prlx.Aggregator.Order.{Sends, nothing, floor, floor_of}
use open_prlx.Aggregator.Order.Dropping.{advance-floor}
use open_prlx.Aggregator.Ring.{advance, remove_front}
use open_prlx.Aggregator.Recover.{
  decode_into, Plan, plan_from, write_out, count_missing, apply_fec, recover,
}
use open_prlx.Aggregator.Planning.{IsPlan, plan_from-Planned}
use open_prlx.Aggregator.Count.{count_set, count_set-add, count_missing-add-count_set}
use open_prlx.Aggregator.Valid.{InSession, IsBusy, Core, core}
use open_prlx.Aggregator.Valid.Moves.{update_self}
use open_prlx.Aggregator.Valid.Working.{Working, write_item-Working}
use open_prlx.Aggregator.Valid.Finish.{IsAt, SendsOn, IsBusy-at, advance-Working}

-- An entry with `k` marks among `n` has as many later marks as gaps before `k`.
pub enough_later :
    {k n : ℕ} (item : RingItem)
    → k ≤ n
    → IsBusy k n item
    → item.has_fragments ≡ k
    → count_missing k item.fragment_map 0 ≤ count_set (n - k) item.fragment_map k
enough_later {k} {n} item le b full = omega (
  arith,
  b.counted,
  count_missing-add-count_set k item.fragment_map 0,
  count_set-add k (n - k) item.fragment_map 0,
  ap (λ l. count_set l item.fragment_map 0) split,
  ap (λ l. count_set (n - k) item.fragment_map l) zero_k,
)
  where
    split : k + (n - k) ≡ n
    split = omega arith

    zero_k : 0 + k ≡ k
    zero_k = omega arith

pub length-write_out :
    (fragments : List Bytes) (out : List ℕ) (blocks : List Bytes)
    → length (write_out fragments out blocks) ≡ length fragments
unfolding write_out
length-write_out fragments [] blocks = refl
length-write_out fragments (i ∷ out) [] = refl
length-write_out fragments (i ∷ out) (b ∷ blocks) =
    length-write_out (set fragments i b) out blocks ∙ length-set fragments i b

-- The block at the front has been dealt with.
pub remove_front-some :
    {k n : ℕ} (a : Aggregator)
    → 0 < a.rx_ring_alloc
    → Working 0 k n (core a)
    → (b : Aggregator) × (remove_front a ≡ some b)
      × InSession k n (core b)
      × Sends (suc (front_item a).block_idx * 256) a.sent (floor_of (core b)) b.sent
unfolding remove_front advance
remove_front-some a h w =
    let w' = advance-Working {x = 40} a (inr (inl refl, omega arith)) h w in
    (
      advance a,
      rw (lt→ltb 0 a.rx_ring_alloc h),
      record { has_code = w'.has_code; window = w'.window; known = inr w'.known },
      nothing (
          subst (λ l. suc (front_item a).block_idx * 256 ≤ floor l (core (advance a))) next
            (advance-floor a w.window h)),
    )
  where
    next : suc a.last_known_block ≡ (a.last_known_block + 1) % 2 ^ 64
    next = omega (arith, w.known)

module _ (fec_decode : Fec → List Bytes → List ℕ → List Bytes) where
  abbrev pub with_fragments : Aggregator → ℕ → List Bytes → Aggregator
  with_fragments a i fragments = record a {
    rx_ring = update a.rx_ring i (record (a.rx_ring i) { fragments = fragments });
  }

  -- What `apply_fec` leaves in the fragments of a block, given the arrays.
  abbrev pub decoded : ℕ → ℕ → RingItem → Plan → List Bytes
  decoded k n item p =
      write_out item.fragments p.out (fec_decode (record { k = k; n = n }) p.in_blocks p.index)

  decode_into-some :
      (k n : ℕ) (a : Aggregator) (i : ℕ) (p : Plan)
      → 1 ≤ k
      → k ≤ n
      → plan_from (a.rx_ring i) n k 0 k ≡ some p
      → decode_into fec_decode (some (record { k = k; n = n })) k n a i
        ≡ some (with_fragments a i (decoded k n (a.rx_ring i) p))
  unfolding decode_into
  decode_into-some k n a i p k_pos k_le q =
      rw (lt→ltb 0 k k_pos, lt→ltb 0 n (omega arith), le→leb k n k_le) (rw q)

  -- A block with `k` fragments is decoded: no `assert` fails, and no array entry is read unset.
  pub apply_fec-some :
      {x k n : ℕ} (a : Aggregator) (i : ℕ)
      → IsAt x (core a) i
      → Working x k n (core a)
      → (a.rx_ring i).has_fragments ≡ k
      → (p : Plan) × IsPlan (a.rx_ring i) n k 0 k p
        × (apply_fec fec_decode a i ≡ some (with_fragments a i (decoded k n (a.rx_ring i) p)))
  unfolding apply_fec
  apply_fec-some {x} {k} {n} a i at w full =
      let c = w.has_code in
      let (p, q, v) =
        plan_from-Planned (a.rx_ring i) n k 0 k
          (enough_later (a.rx_ring i) c.k_le (IsBusy-at (core a) i at w) full) in
      (
        p,
        v,
        (λ t. decode_into fec_decode (c.code t) (pos_part (c.k_eq t)) (pos_part (c.n_eq t)) a i)
            ∙ decode_into-some k n a i p c.k_pos c.k_le q,
      )

  -- What recovery leaves alone besides.
  pub record Recovered (i : ℕ) (c d : Core) : Type 0 where
    pub on : SendsOn i c d
    pub cursor : (d.rx_ring i).fragment_to_send_idx ≡ (c.rx_ring i).fragment_to_send_idx
    pub block : (d.rx_ring i).block_idx ≡ (c.rx_ring i).block_idx

  pub with_fragments-Working :
      {x k n : ℕ} (a : Aggregator) (i : ℕ) (p : Plan)
      → IsAt x (core a) i
      → Working x k n (core a)
      → Working x k n (core (with_fragments a i (decoded k n (a.rx_ring i) p)))
        × Recovered i (core a) (core (with_fragments a i (decoded k n (a.rx_ring i) p)))
  with_fragments-Working {x} {k} {n} a i p at w =
      let b = IsBusy-at (core a) i at w in
      let size = w.window.sized i in
      let item : RingItem = record (a.rx_ring i) { fragments = decoded k n (a.rx_ring i) p } in
      let here = update_self a.rx_ring i item in
      (
        write_item-Working x (core a) i item w (inl refl) at.0 at.1
            (record {
              map_len = size.map_len;
              buf_len = length-write_out (a.rx_ring i).fragments p.out _ ∙ size.buf_len;
            })
            refl (record { counted = b.counted; at_most = b.at_most; sent = b.sent }),
        record {
          on = record { front = refl; alloc = refl; counter = ap (λ it. it.has_fragments) here };
          cursor = ap (λ it. it.fragment_to_send_idx) here;
          block = ap (λ it. it.block_idx) here;
        },
      )

  abbrev counted : ℕ → Aggregator → ℕ → ℕ → List Bytes → Aggregator
  counted left a i f fragments =
      let b = with_fragments a i fragments in
      record b {
        count_p_fec_recovered =
            (b.count_p_fec_recovered + count_missing (suc left) (a.rx_ring i).fragment_map f)
            % 2 ^ 32;
      }

  pub recover-some :
      (left : ℕ) {x k n : ℕ} (a : Aggregator) (i f : ℕ)
      → IsAt x (core a) i
      → Working x k n (core a)
      → (a.rx_ring i).has_fragments ≡ k
      → (b : Aggregator) × (recover fec_decode left a i f ≡ some b)
        × Working x k n (core b)
        × Recovered i (core a) (core b)
        × (b.sent ≡ a.sent)
  unfolding recover
  recover-some zero a i f at w full = (
    a,
    refl,
    w,
    record {
      on = record { front = refl; alloc = refl; counter = refl };
      cursor = refl;
      block = refl;
    },
    refl,
  )
  recover-some (suc left) {x} {k} {n} a i f at w full =
      elim (Bool-cases (get_or (a.rx_ring i).fragment_map f false)) [
        | inl e ↦
            let (b, q, w', r, s) = recover-some left a i (f + 1) at w full in
            (b, rw (e, recover) q, w', r, s)
        | inr e ↦
            let (p, v, q) = apply_fec-some a i at w full in
            let (w', r) = with_fragments-Working a i p at w in
            (counted left a i f (decoded k n (a.rx_ring i) p), rw (e, recover) (rw q), w', r, refl)
      ]
