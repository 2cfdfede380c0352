-- ===== src/Aggregator/Valid/Working.antt =====
-- The invariant while `process_packet` works on the entry at position `x` of the window.
use open_prlx.Prelude.{
  ℕ, suc, ◌+◌, ◌%◌, ◌≤◌, ◌<◌, ◌≡◌, ◌≢◌, ◌⊎◌, inl, inr, refl, ap, sym, ◌∙◌, subst, true, false,
  arith, ℕ_discrete, get_or, length-set,
}
use open_prlx.Wire.{Bytes, max_block_idx}
use open_prlx.Aggregator.{Aggregator, RingItem, update}
use open_prlx.Aggregator.Count.{count_set-set}
use open_prlx.Aggregator.Packet.{stored, store_fragment}
use open_prlx.Aggregator.Valid.{
  HasCode, HasWindow, InSession, IsOpen, IsBusy, IsSized, Core, core, nobody, nth,
}
use open_prlx.Aggregator.Valid.Moves.{update_self, update_ne, update_all}

pub record Working (x k n : ℕ) (c : Core) : Type 0 where
  pub has_code : HasCode k n c
  pub window : HasWindow x 40 (suc c.last_known_block) k n c
  pub known : c.last_known_block ≤ max_block_idx

abbrev pub write_item : Core → ℕ → RingItem → Core
write_item c i item = record c { rx_ring = update c.rx_ring i item }

-- An entry of the window is written: it keeps its block, and is now the busy one.
pub write_item-Working :
    {y k n : ℕ} (x : ℕ) (c : Core) (i : ℕ) (item : RingItem)
    → Working y k n c
    → ((y ≡ x) ⊎ (40 ≤ y))
    → x < c.rx_ring_alloc
    → i ≡ (c.rx_ring_front + x) % 40
    → IsSized n item
    → item.block_idx ≡ (c.rx_ring i).block_idx
    → IsBusy k n item
    → Working x k n (write_item c i item)
write_item-Working {y} {k} {n} x c i item w yx inside at sized block busy = record {
  has_code = w.has_code;
  window = record {
    front_in = v.front_in;
    alloc_in = v.alloc_in;
    sized = update_all (IsSized n) c.rx_ring i item sized v.sized;
    blocks = λ j p q. elim (ℕ_discrete j x) [
      | yes e ↦ omega (
        arith,
        v.blocks j p q,
        ap (λ it. it.block_idx) (here j e),
        block,
        ap (λ l. (c.rx_ring l).block_idx) at,
        ap (λ l. (c.rx_ring ((c.rx_ring_front + l) % 40)).block_idx) e,
      )
      | no ne ↦ omega (arith, v.blocks j p q, ap (λ it. it.block_idx) (there j p ne))
    ];
    opened = λ j p ne.
        subst (IsOpen k n) (sym (there j p ne)) (v.opened j p (omega (arith, v.alloc_in)));
    busy = λ p. subst (IsBusy k n) (sym (here x refl)) busy;
  };
  known = w.known;
}
  where
    v : HasWindow y 40 (suc c.last_known_block) k n c
    v = w.window

    here : (j : ℕ) → j ≡ x → update c.rx_ring i item ((c.rx_ring_front + j) % 40) ≡ item
    here j e = rw (e, ← at) (update_self c.rx_ring i item)

    there :
        (j : ℕ)
        → j < c.rx_ring_alloc
        → j ≢ x
        → update c.rx_ring i item ((c.rx_ring_front + j) % 40)
          ≡ c.rx_ring ((c.rx_ring_front + j) % 40)
    there j p ne = update_ne c.rx_ring i item _ (omega (arith, v.alloc_in, v.front_in))

-- An open entry is no longer busy.
pub settle :
    {x k n : ℕ} (c : Core)
    → x < c.rx_ring_alloc
    → IsOpen k n (nth c x)
    → Working x k n c
    → InSession k n c
settle {x} {k} {n} c inside open_now w = record {
  has_code = w.has_code;
  window = record {
    front_in = w.window.front_in;
    alloc_in = w.window.alloc_in;
    sized = w.window.sized;
    blocks = w.window.blocks;
    opened =
        λ j p _. elim (ℕ_discrete j x) [ yes e ↦ rw e open_now | no ne ↦ w.window.opened j p ne ];
    busy = λ p. absurd (omega (arith, w.window.alloc_in));
  };
  known = inr w.known;
}

-- A block of the window is known, so the session is under way.
pub begin :
    {k n : ℕ} (c : Core) (x : ℕ) → x < c.rx_ring_alloc → InSession k n c → Working nobody k n c
begin c x inside s = record {
  has_code = s.has_code;
  window = s.window;
  known = elim s.known [ inl (_, none_yet) ↦ absurd (omega arith) | inr at_most ↦ at_most ];
}

-- A new fragment adds one to both the counter and the marks that it counts.
pub store_fragment-Working :
    {k n : ℕ} (x : ℕ) (a : Aggregator) (i f : ℕ) (plain : Bytes)
    → Working nobody k n (core a)
    → x < a.rx_ring_alloc
    → i ≡ (a.rx_ring_front + x) % 40
    → f < n
    → get_or (a.rx_ring i).fragment_map f false ≡ false
    → Working x k n (core (store_fragment a i f plain))
unfolding store_fragment stored
store_fragment-Working {k} {n} x a i f plain w inside at fits clear =
    write_item-Working x (core a) i _ w (inr (omega arith)) inside at
      (record {
        map_len = length-set item.fragment_map f true ∙ size.map_len;
        buf_len = length-set item.fragments f _ ∙ size.buf_len;
      })
      refl
      (record {
        counted = omega (
          arith,
          was.counted,
          was.partial,
          w.has_code.k_le,
          w.has_code.n_byte,
          count_set-set n item.fragment_map f 0 (rw size.map_len fits) clear (omega arith)
              (omega arith),
        );
        at_most = omega (arith, was.partial, w.has_code.k_le, w.has_code.n_byte);
        sent = omega (arith, was.unsent);
      })
  where
    item : RingItem
    item = a.rx_ring i

    size : IsSized n item
    size = w.window.sized i

    was : IsOpen k n item
    was =
        subst (λ l. IsOpen k n (a.rx_ring l)) (sym at)
          (w.window.opened x inside (omega (arith, w.window.alloc_in)))
