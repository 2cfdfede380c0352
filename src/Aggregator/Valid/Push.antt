-- ===== src/Aggregator/Valid/Push.antt =====
-- New blocks enter the ring in order, at the end of the window.
use open_prlx.Prelude.{
  ℕ, zero, suc, ◌+◌, ◌-◌, ◌*◌, ◌%◌, ◌^◌, ◌≤◌, ◌<◌, ◌≡◌, refl, ap, ap₂, ltb→lt, sym, ◌∙◌, subst,
  pos_part, Option, some, arith, inl, inr, subst, ltb, Bool-cases,
}
use mathlib.Core.Path.{subst₂}
use open_prlx.Wire.{mod_n}
use open_prlx.Aggregator.{Aggregator, front_item, update}
use open_prlx.Aggregator.Send.{send_front}
use open_prlx.Aggregator.Ring.{take_free, take_oldest, rx_ring_push, start_block, push_blocks}
use open_prlx.Aggregator.Valid.{HasCode, HasWindow, core, Core, nobody}
use open_prlx.Aggregator.Valid.Moves.{core-send_front}
use open_prlx.Aggregator.Valid.Grow.{
  started, GrowsBy, grown, grown-HasWindow, grown-Rising, grown-floor,
}
use open_prlx.Aggregator.Order.{
  Sends, nothing, Sends-widen, Sends-trans, floor, floor_some, Rising, reached,
}
use open_prlx.Aggregator.Order.Sending.{send_front-Sends}

-- A step of the loop over new blocks, for the block `next`.
abbrev pub push_block : Aggregator → ℕ → Aggregator
push_block a block = let (b, idx) = rx_ring_push a in start_block b idx block

-- What a push leaves: the window one block on, and the index of its next entry.
pub record Pushed (a : Aggregator) (fresh next k n : ℕ) (r : Aggregator × ℕ) : Type 0 where
  pub code : HasCode k n (core r.0)
  pub window : HasWindow nobody (suc fresh) (suc next) k n (core (start_block r.0 r.1 next))
  pub some_alloc : 0 < r.0.rx_ring_alloc
  pub last_known : r.0.last_known_block ≡ a.last_known_block
  pub idx : r.1 ≡ (r.0.rx_ring_front + (r.0.rx_ring_alloc - 1)) % 40
  pub rising : Rising (suc next) (core (start_block r.0 r.1 next))
  pub sends :
      Sends
        (floor next (core a))
        a.sent
        (floor (suc next) (core (start_block r.0 r.1 next)))
        r.0.sent

abbrev start_core : Core → ℕ → ℕ → ℕ → Core
start_core c idx n block = record c {
  rx_ring = update c.rx_ring idx (started n block (c.rx_ring idx));
}

abbrev moved_core : Core → ℕ → ℕ → Core
moved_core c front' alloc' = record c { rx_ring_front = front'; rx_ring_alloc = alloc' }

-- Any way to move the window's ends as `GrowsBy` says is a push.
moved-Pushed :
    {fresh next k n : ℕ} (a b : Aggregator) (idx front' alloc' s : ℕ)
    → HasCode k n (core a)
    → HasWindow nobody fresh next k n (core a)
    → Rising next (core a)
    → GrowsBy a.rx_ring_front a.rx_ring_alloc front' alloc' s
    → core b ≡ moved_core (core a) front' alloc'
    → idx ≡ (front' + (alloc' - 1)) % 40
    → Sends (floor next (core a)) a.sent (reached s next (core a)) b.sent
    → Pushed a fresh next k n (b, idx)
unfolding start_block
moved-Pushed {fresh} {next} {k} {n} a b idx front' alloc' s code v rise grows same at sends =
    record {
      code = subst (HasCode k n) (sym same) code;
      window =
          subst (HasWindow nobody (suc fresh) (suc next) k n) (sym started_core)
            (grown-HasWindow (core a) front' alloc' s grows code.k_pos v);
      some_alloc = omega (arith, ap (λ c. c.rx_ring_alloc) same);
      last_known = ap (λ c. c.last_known_block) same;
      idx = at ∙ sym (ap (λ c. (c.rx_ring_front + (c.rx_ring_alloc - 1)) % 40) same);
      rising =
          subst (Rising (suc next)) (sym started_core)
            (grown-Rising (core a) front' alloc' s grows code.k_pos v rise);
      sends =
          subst (λ c. Sends (floor next (core a)) a.sent (floor (suc next) c) b.sent)
            (sym started_core)
            (Sends-widen (omega arith)
              (grown-floor (core a) front' alloc' s grows code.k_pos v rise) sends);
    }
  where
    started_core : core (start_block b idx next) ≡ grown (core a) front' alloc' n next
    started_core =
        ap (λ c. start_core c idx (pos_part c.fec_n) next) same
        ∙ ap₂ (λ i z. start_core (moved_core (core a) front' alloc') i (pos_part z) next) at
            code.n_eq

module _ {fresh next k n : ℕ} (a : Aggregator) (code : HasCode k n (core a))
    (v : HasWindow nobody fresh next k n (core a)) (rise : Rising next (core a)) where
  take_free-Pushed : a.rx_ring_alloc < 40 → Pushed a fresh next k n (take_free a)
  unfolding take_free mod_n
  take_free-Pushed room =
      moved-Pushed a _ _ a.rx_ring_front (a.rx_ring_alloc + 1) 0 code v rise (inl (omega arith))
        refl (omega arith) (nothing (omega arith))

  take_oldest-Pushed : a.rx_ring_alloc ≡ 40 → Pushed a fresh next k n (take_oldest a)
  unfolding take_oldest mod_n
  take_oldest-Pushed full =
      moved-Pushed a _ _ _ a.rx_ring_alloc 1 code v rise (inr (omega arith)) (ap step sent)
        (ap (λ c. c.rx_ring_front) sent ∙ omega (arith, v.front_in))
        (subst (λ l. Sends l a.sent (suc (front_item a).block_idx * 256) (take_oldest a).0.sent)
          (sym (floor_some next (core a) (omega arith)))
          (send_front-Sends (record a { count_p_override = (a.count_p_override + 1) % 2 ^ 32 })
            code.k_eq (omega (arith, code.k_le, code.n_byte)) (omega (arith, cursor))))
    where
      step : Core → Core
      step c = record c { rx_ring_front = (40 + (c.rx_ring_front + 1) % 40) % 40 }

      cursor : (front_item a).fragment_to_send_idx < k
      cursor =
          subst (λ l. (a.rx_ring l).fragment_to_send_idx < k) (omega (arith, v.front_in))
            (v.opened 0 (omega arith) (omega arith)).unsent

      sent :
          core (send_front (record a { count_p_override = (a.count_p_override + 1) % 2 ^ 32 }))
          ≡ core a
      sent = core-send_front _

  rx_ring_push-Pushed : Pushed a fresh next k n (rx_ring_push a)
  unfolding rx_ring_push
  rx_ring_push-Pushed = elim (Bool-cases (ltb a.rx_ring_alloc 40)) [
    | inl room ↦ rw room (take_free-Pushed (ltb→lt _ _ room))
    | inr full ↦ rw full (take_oldest-Pushed (ground (arith, v.alloc_in)))
  ]

-- What the loop leaves: the window up to the block, and the index of its next entry.
pub record Pushes (a : Aggregator) (next fresh block k n : ℕ) (r : Aggregator × Option ℕ)
    : Type 0 where
  pub code : HasCode k n (core r.0)
  pub window : HasWindow nobody fresh (suc block) k n (core r.0)
  pub some_alloc : 0 < r.0.rx_ring_alloc
  pub last_known : r.0.last_known_block ≡ a.last_known_block
  pub idx : r.1 ≡ some ((r.0.rx_ring_front + (r.0.rx_ring_alloc - 1)) % 40)
  pub sends : Sends (floor next (core a)) a.sent (floor (suc block) (core r.0)) r.0.sent

-- One round of the loop, whose arithmetic on `uint64_t` comes to the block `next`.
record Rounds (a : Aggregator) (before fresh next k n : ℕ) (b : Aggregator) : Type 0 where
  code : HasCode k n (core b)
  window : HasWindow nobody fresh next k n (core b)
  last_known : b.last_known_block ≡ a.last_known_block
  rising : Rising next (core b)
  sends : Sends (floor before (core a)) a.sent (floor next (core b)) b.sent

abbrev round : Aggregator → ℕ → Aggregator
round a number = start_block (rx_ring_push a).0 (rx_ring_push a).1 number

round-Rounds :
    {fresh next k n : ℕ} (a : Aggregator) (number : ℕ)
    → HasCode k n (core a)
    → HasWindow nobody fresh next k n (core a)
    → Rising next (core a)
    → next ≡ number
    → Rounds a next (suc fresh) (suc number) k n (round a number)
unfolding start_block
round-Rounds {fresh} {next} {k} {n} a number code v rise e =
    let p = rx_ring_push-Pushed a code v rise in
    record {
      code = p.code;
      window = subst (λ w. HasWindow nobody (suc fresh) (suc w) k n (core (round a w))) e p.window;
      last_known = p.last_known;
      rising = subst (λ w. Rising (suc w) (core (round a w))) e p.rising;
      sends =
          subst
            (λ w.
              Sends (floor next (core a)) a.sent (floor (suc w) (core (round a w)))
                (rx_ring_push a).0.sent)
            e p.sends;
    }

pub push_blocks-Pushes :
    (left : ℕ) {fresh k n : ℕ} (block new i : ℕ) (a : Aggregator) (r : Option ℕ)
    → HasCode k n (core a)
    → (next : ℕ) → HasWindow nobody fresh next k n (core a)
    → Rising next (core a)
    → next + new ≡ suc block + i
    → i + suc left ≡ new
    → block < 2 ^ 60
    → new ≤ 40
    → Pushes a next (fresh + suc left) block k n (push_blocks (suc left) block new i a r)
unfolding push_blocks start_block
push_blocks-Pushes zero {fresh} {k} {n} block new i a r code next v rise e l b w =
    let p = rx_ring_push-Pushed a code v rise in
    let number : next ≡ (block + i + 1 + 2 ^ 64 - new) % 2 ^ 64 = omega arith in
    let here : (block + i + 1 + 2 ^ 64 - new) % 2 ^ 64 ≡ block = omega arith in
    let q = round-Rounds a ((block + i + 1 + 2 ^ 64 - new) % 2 ^ 64) code v rise number in
    record {
      code = q.code;
      window =
          subst₂
            (λ f w.
              HasWindow nobody f (suc w) k n
                (core (round a ((block + i + 1 + 2 ^ 64 - new) % 2 ^ 64))))
            (omega arith) here q.window;
      some_alloc = p.some_alloc;
      last_known = p.last_known;
      idx = ap some p.idx;
      sends =
          subst
            (λ w.
              Sends (floor next (core a)) a.sent
                (floor (suc w) (core (round a ((block + i + 1 + 2 ^ 64 - new) % 2 ^ 64))))
                (rx_ring_push a).0.sent)
            here q.sends;
    }
push_blocks-Pushes (suc left) {fresh} {k} {n} block new i a r code next v rise e l b w =
    let number : next ≡ (block + i + 1 + 2 ^ 64 - new) % 2 ^ 64 = omega arith in
    let q = round-Rounds a ((block + i + 1 + 2 ^ 64 - new) % 2 ^ 64) code v rise number in
    let rest =
      push_blocks-Pushes left {fresh = suc fresh} block new (i + 1)
        (round a ((block + i + 1 + 2 ^ 64 - new) % 2 ^ 64)) (some (rx_ring_push a).1) q.code
        (suc ((block + i + 1 + 2 ^ 64 - new) % 2 ^ 64)) q.window q.rising (omega arith)
        (omega arith) b w in
    record {
      code = rest.code;
      window =
          subst
            (λ f.
              HasWindow nobody f (suc block) k n
                (core (push_blocks (suc (suc left)) block new i a r).0))
            (omega arith) rest.window;
      some_alloc = rest.some_alloc;
      last_known = rest.last_known ∙ q.last_known;
      idx = rest.idx;
      sends = Sends-trans q.sends rest.sends;
    }
