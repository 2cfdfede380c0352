-- ===== src/Aggregator/Valid/Lookup.antt =====
-- Where the entry of a block is, and when a block is taken for processed.
use open_prlx.Prelude.{
  ℕ, zero, suc, ◌+◌, ◌-◌, ◌%◌, ◌^◌, ◌≤◌, ◌<◌, ◌≡◌, ◌≢◌, ◌⊎◌, inl, inr, refl, ap, sym, ◌∙◌, subst,
  true, false, Option, none, some, arith, ◌==◌, ==_iff, Bool-cases, dec_lt, ℕ_discrete, lt→ltb,
}
use open_prlx.Wire.{mod_n, max_block_idx}
use open_prlx.Aggregator.{Aggregator, RingItem}
use open_prlx.Aggregator.Ring.{
  find_block, push_blocks, count_new_blocks, is_processed, admit_block, get_block_ring_idx,
}
use open_prlx.Aggregator.Valid.{HasWindow, InSession, IsKnown, core, nobody, nth}
use open_prlx.Aggregator.Order.{
  Sends, nothing, Sends-widen, floor, floor_of, floor_some, floor_none, Rising, HasWindow-Rising,
}
use open_prlx.Aggregator.Valid.Moves.{forget-HasWindow}
use open_prlx.Aggregator.Valid.Push.{push_blocks-Pushes}

-- Index `i + 1`, as the code computes it, and what follows it round the ring.
after : ℕ → ℕ
after i = (40 + (i + 1) % 40) % 40

after-add : (i j : ℕ) → i < 40 → (after i + j) % 40 ≡ (i + suc j) % 40
unfolding after
after-add i j h = omega arith

add_zero_mod : (i : ℕ) → i < 40 → (i + 0) % 40 ≡ i
add_zero_mod i h = omega arith

module _ (ring : ℕ → RingItem) (block : ℕ) where
  -- `block` is in none of the `c` entries from `i` on.
  abbrev Absent : ℕ → ℕ → Type 0
  Absent c i = (j : ℕ) → j < c → (ring ((i + j) % 40)).block_idx ≢ block

  Absent-suc :
      (c i : ℕ) → i < 40 → (ring i).block_idx ≢ block → Absent c (after i) → Absent (suc c) i
  Absent-suc c i h here rest zero p e =
      here (subst (λ l. (ring l).block_idx ≡ block) (add_zero_mod i h) e)
  Absent-suc c i h here rest (suc j) p e =
      rest j (omega arith) (subst (λ l. (ring l).block_idx ≡ block) (sym (after-add i j h)) e)

  -- The search looks at the `c` entries from `i` on, in order round the ring.
  pub find_block-cases :
      (c i : ℕ)
      → i < 40
      → ((find_block ring block c i ≡ none) × Absent c i)
        ⊎ ((j : ℕ) × (j < c)
            × (find_block ring block c i ≡ some ((i + j) % 40))
            × ((ring ((i + j) % 40)).block_idx ≡ block))
  unfolding find_block mod_n after
  find_block-cases zero i h = inl (refl, λ j p. absurd (omega arith))
  find_block-cases (suc c) i h = elim (Bool-cases ((ring i).block_idx == block)) [
    | inl here ↦ inr (
      0,
      omega arith,
      rw here (ap some (sym (add_zero_mod i h))),
      subst (λ l. (ring l).block_idx ≡ block) (sym (add_zero_mod i h)) ((==_iff _ _).0 here),
    )
    | inr away ↦ elim (find_block-cases c (after i) (omega arith)) [
      | inl (e, all) ↦
          inl (
            rw away e,
            Absent-suc c i h (λ q. cc (away, (==_iff (ring i).block_idx block).1 q)) all,
          )
      | inr (j, p, e, b) ↦ inr (
        suc j,
        omega arith,
        rw away (e ∙ ap some (after-add i j h)),
        subst (λ l. (ring l).block_idx ≡ block) (after-add i j h) b,
      )
    ]
  ]

-- What `get_block_ring_idx` comes to: the entry of the block in the window, or, for a block that
-- has left the window, nothing.
pub record Located (a : Aggregator) (block k n : ℕ) (r : Aggregator × Option ℕ) : Type 0 where
  pub session : InSession k n (core r.0)
  pub sends : Sends (floor_of (core a)) a.sent (floor_of (core r.0)) r.0.sent
  pub place :
      ((r ≡ (a, none)) × (block + a.rx_ring_alloc ≤ a.last_known_block))
      ⊎ ((j : ℕ) × (j < r.0.rx_ring_alloc)
          × (r.1 ≡ some ((r.0.rx_ring_front + j) % 40))
          × ((nth (core r.0) j).block_idx ≡ block))

module _ {k n : ℕ} (a : Aggregator) (block : ℕ) (s : InSession k n (core a))
    (small : block ≤ max_block_idx) where
  -- The window holds every block from its first to the last known one.
  processed-Located :
      Absent a.rx_ring block a.rx_ring_alloc a.rx_ring_front
      → is_processed a block ≡ true
      → Located a block k n (a, none)
  unfolding is_processed
  processed-Located away done = record {
    session = s;
    sends = nothing (omega arith);
    place = inl (
      refl,
      elim (dec_lt a.last_known_block (block + a.rx_ring_alloc)) [
        | no old ↦ omega arith
        | yes inside ↦ absurd (
            omega (
              arith,
              processed_le,
              away (block + a.rx_ring_alloc - suc a.last_known_block) (omega (arith, processed_le)),
              s.window.blocks (block + a.rx_ring_alloc - suc a.last_known_block)
                  (omega (arith, processed_le)) (omega arith),
            ))
      ],
    );
  }
    where
      processed_le : block ≤ a.last_known_block
      processed_le = ground arith

  abbrev pushed : ℕ → Aggregator × Option ℕ
  pushed new = push_blocks (suc new) block (suc new) 0 (record a { last_known_block = block }) none

  -- The window from which the new blocks are pushed: as it is, or with its blocks forgotten.
  start :
      is_processed a block ≡ false
      → (new : ℕ) → count_new_blocks a block ≡ suc new
      → (fresh : ℕ) × (40 ≤ fresh + suc new)
        × HasWindow nobody fresh (suc block - suc new) k n (core a)
        × (suc new ≤ 40)
        × (suc new ≤ suc block)
        × Rising (suc block - suc new) (core (record a { last_known_block = block }))
        × (floor_of (core a) ≤ floor (suc block - suc new) (core a))
  unfolding is_processed count_new_blocks
  start fresh new e = elim (dec_lt (a.last_known_block + 39) block) [
    | yes jump ↦ (
      0,
      ground (arith, known),
      forget-HasWindow (core a) 0 _ (inl refl) s.window,
      ground (arith, known),
      ground (arith, known),
      rises,
      lower,
    )
    | no near ↦ (
      40,
      omega arith,
      forget-HasWindow (core a) 40 _ (inr (settle near)) s.window,
      ground (arith, known),
      ground (arith, known),
      rises,
      lower,
    )
  ]
    where
      known : IsKnown (core a)
      known = s.known

      rises : Rising (suc block - suc new) (core (record a { last_known_block = block }))
      rises = elim known [
        | inl (_, none_yet) ↦ record {
          up = λ j h. absurd (omega arith);
          below = λ j h. absurd (omega arith);
        }
        | inr at_most ↦
            let r = HasWindow-Rising (core a) s.window (ground (arith, at_most)) in
            record { up = r.up; below = r.below }
      ]

      lower : floor_of (core a) ≤ floor (suc block - suc new) (core a)
      lower = elim (ℕ_discrete a.rx_ring_alloc 0) [
        | yes z ↦ omega (
          arith,
          floor_none ((a.last_known_block + 1) % 2 ^ 64) (core a) z,
          floor_none (suc block - suc new) (core a) z,
          next_le,
        )
        | no nz ↦ omega (
          arith,
          floor_some ((a.last_known_block + 1) % 2 ^ 64) (core a) (omega arith),
          floor_some (suc block - suc new) (core a) (omega arith),
        )
      ]
        where
          next_le : (a.last_known_block + 1) % 2 ^ 64 ≤ suc block - suc new
          next_le = elim known [
            | inl (none_yet, _) ↦ omega arith
            | inr at_most ↦ ground (arith, at_most)
          ]

      settle :
          ¬ (a.last_known_block + 39 < block)
          → (a.rx_ring_alloc ≡ 0)
            ⊎ (((40 ≤ 40) ⊎ (40 ≤ 40)) × (suc block - suc new ≡ suc a.last_known_block))
      settle near = elim known [
        | inl (_, none_yet) ↦ inl none_yet
        | inr at_most ↦ inr (inl (omega arith), ground arith)
      ]

  pushed-Located :
      is_processed a block ≡ false
      → (new : ℕ) → count_new_blocks a block ≡ suc new
      → Located a block k n (pushed new)
  pushed-Located old new e =
      let (fresh, wide, v, le, low, rise, lower) = start old new e in
      let p =
        push_blocks-Pushes new block (suc new) 0 (record a { last_known_block = block }) none
          s.has_code (suc block - suc new) v rise (omega arith) (omega arith) (omega arith) le in
      record {
        session = record {
          has_code = p.code;
          window =
              forget-HasWindow (core (pushed new).0) 40 _
                (inr (inr (inr wide, ap suc p.last_known))) p.window;
          known = inr (rw p.last_known small);
        };
        sends =
            Sends-widen lower
              (omega (
                arith,
                floor_some (suc block) (core (pushed new).0) p.some_alloc,
                floor_some (((pushed new).0.last_known_block + 1) % 2 ^ 64) (core (pushed new).0)
                    p.some_alloc,
              ))
              p.sends;
        place = inr (
          _,
          omega (arith, p.some_alloc),
          p.idx,
          omega (
            arith,
            p.window.blocks ((pushed new).0.rx_ring_alloc - 1) (omega (arith, p.some_alloc))
                (omega arith),
            p.some_alloc,
          ),
        );
      }

  some_new : is_processed a block ≡ false → (new : ℕ) × (count_new_blocks a block ≡ suc new)
  unfolding is_processed count_new_blocks
  some_new old = (count_new_blocks a block - 1, ground arith)

  admit_block-Located :
      Absent a.rx_ring block a.rx_ring_alloc a.rx_ring_front
      → (r : Aggregator × Option ℕ) × (admit_block a block ≡ some r) × Located a block k n r
  unfolding admit_block
  admit_block-Located away = elim (Bool-cases (is_processed a block)) [
    | inl done ↦ ((a, none), rw done, processed-Located away done)
    | inr old ↦
        let (new, e) = some_new old in
        (pushed new, rw (old, e, lt→ltb 0 (suc new) (omega arith)), pushed-Located old new e)
  ]

  -- In a session, on a block index that is not above the greatest one, `get_block_ring_idx` returns,
  -- keeps the invariant, and gives the index of the block's entry in the window, or it gives -1 and
  -- changes nothing, and then the block is older than all the blocks of the window.
  pub get_block_ring_idx-Located :
      (r : Aggregator × Option ℕ) × (get_block_ring_idx a block ≡ some r) × Located a block k n r
  unfolding get_block_ring_idx
  get_block_ring_idx-Located =
      elim (find_block-cases a.rx_ring block a.rx_ring_alloc a.rx_ring_front s.window.front_in) [
        | inl (e, away) ↦
            let (r, q, l) = admit_block-Located away in (r, rw (e, get_block_ring_idx) q, l)
        | inr (j, p, e, b) ↦ (
          (a, some ((a.rx_ring_front + j) % 40)),
          rw (e, get_block_ring_idx),
          record { session = s; sends = nothing (omega arith); place = inr (j, p, refl, b) },
        )
      ]
