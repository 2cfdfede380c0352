-- ===== src/Aggregator/Valid/Moves.antt =====
-- The steps that leave the ring alone, or only drop its oldest block.
use open_prlx.Prelude.{
  if◌then◌else◌, ℕ, zero, suc, ◌+◌, ◌-◌, ◌%◌, ◌≤◌, ◌<◌, ◌≡◌, ◌≢◌, ◌⊎◌, refl, sym, ◌∙◌, subst, Bool,
  true, false, arith, ℕ_discrete, get_or, subst,
}
use open_prlx.Wire.{mod_n}
use open_prlx.Aggregator.{Aggregator, RingItem, front_item, update}
use open_prlx.Aggregator.Send.{send_packet, send_held, send_front}
use open_prlx.Aggregator.Ring.{advance}
use open_prlx.Aggregator.Valid.{HasWindow, IsOpen, IsBusy, Core, core}

pub core-send_packet : (a : Aggregator) (i f : ℕ) → core (send_packet a i f) ≡ core a
unfolding send_packet
core-send_packet a i f = refl

core-if :
    (held : Bool) (a : Aggregator) (i f : ℕ) → core (if held then send_packet a i f else a) ≡ core a
core-if true a i f = core-send_packet a i f
core-if false a i f = refl

pub core-send_held : (left : ℕ) (a : Aggregator) (f : ℕ) → core (send_held left a f) ≡ core a
unfolding send_held
core-send_held zero a f = refl
core-send_held (suc left) a f =
    core-send_held left _ (f + 1)
    ∙ core-if (get_or (front_item a).fragment_map f false) a a.rx_ring_front f

pub core-send_front : (a : Aggregator) → core (send_front a) ≡ core a
unfolding send_front
core-send_front a = core-send_held _ a _

-- Where the busy entry is after the oldest block is dropped: a place nearer, or nowhere.
abbrev pub MovesTo : ℕ → ℕ → Type 0
MovesTo y x = (y ≡ suc x) ⊎ (((y ≡ 0) ⊎ (40 ≤ y)) × (40 ≤ x))

-- To drop the oldest block moves each other one a place to the front.
pub advance-HasWindow :
    {y x fresh next k n : ℕ} (a : Aggregator)
    → MovesTo y x
    → 0 < a.rx_ring_alloc
    → HasWindow y fresh next k n (core a)
    → HasWindow x fresh next k n (core (advance a))
unfolding advance mod_n
advance-HasWindow {y} {x} {fresh} {next} {k} {n} a m h v = record {
  front_in = omega arith;
  alloc_in = omega (arith, v.alloc_in);
  sized = v.sized;
  blocks = λ j p q.
      subst (λ i. (a.rx_ring i).block_idx + (a.rx_ring_alloc - 1) ≡ next + j) (shift j)
        (omega (arith, v.blocks (suc j) (omega arith) (omega arith)));
  opened = λ j p ne.
      subst (λ i. IsOpen k n (a.rx_ring i)) (shift j)
        (v.opened (suc j) (omega arith) (omega (arith, v.alloc_in)));
  busy = λ p. subst (λ i. IsBusy k n (a.rx_ring i)) (to_x p) (v.busy (omega (arith, v.alloc_in)));
}
  where
    shift :
        (j : ℕ) → (a.rx_ring_front + suc j) % 40 ≡ ((40 + (a.rx_ring_front + 1) % 40) % 40 + j) % 40
    shift j = omega arith

    to_x :
        x < a.rx_ring_alloc - 1
        → (a.rx_ring_front + y) % 40 ≡ ((40 + (a.rx_ring_front + 1) % 40) % 40 + x) % 40
    to_x p = omega (arith, v.alloc_in)

-- Forgets the blocks of all entries, or of some. An empty window has none, and no window has
-- more than 40.
pub forget-HasWindow :
    {x fresh next k n : ℕ} (c : Core) (fresh' next' : ℕ)
    → ((fresh' ≡ 0) ⊎ (c.rx_ring_alloc ≡ 0) ⊎ (((fresh' ≤ fresh) ⊎ (40 ≤ fresh)) × (next' ≡ next)))
    → HasWindow x fresh next k n c
    → HasWindow x fresh' next' k n c
forget-HasWindow {x} {fresh} c fresh' next' h v = record {
  front_in = v.front_in;
  alloc_in = v.alloc_in;
  sized = v.sized;
  blocks = λ j p q. elim (ℕ_discrete fresh' 0) [
    | yes z ↦ absurd (omega arith)
    | no nz ↦ omega (arith, v.alloc_in, v.blocks j p (omega (arith, v.alloc_in)))
  ];
  opened = v.opened;
  busy = v.busy;
}

-- An entry of the ring is written.
pub update_self : (r : ℕ → RingItem) (i : ℕ) (item : RingItem) → update r i item i ≡ item
update_self r i item = ground arith

pub update_ne :
    (r : ℕ → RingItem) (i : ℕ) (item : RingItem) (j : ℕ) → j ≢ i → update r i item j ≡ r j
update_ne r i item j ne = ground arith

pub update_all :
    (P : RingItem → Type 0) (r : ℕ → RingItem) (i : ℕ) (item : RingItem)
    → P item
    → ((j : ℕ) → P (r j))
    → (j : ℕ) → P (update r i item j)
update_all P r i item h all j = elim (ℕ_discrete j i) [
  | yes e ↦ rw e (subst P (sym (update_self r i item)) h)
  | no ne ↦ subst P (sym (update_ne r i item j ne)) (all j)
]
