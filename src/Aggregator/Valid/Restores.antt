-- ===== src/Aggregator/Valid/Restores.antt =====
-- `apply_fec` of src/wifi/WFBProcessor.cpp on a block of the window that has `k` fragments.
use open_prlx.Prelude.{ℕ, ◌<◌, ◌≡◌, ◌∙◌, List, [], true, false, some, get_or, ap}
use open_prlx.Wire.{Bytes}
use open_prlx.Aggregator.{Aggregator, Fec}
use open_prlx.Aggregator.Recover.{apply_fec}
use open_prlx.Aggregator.Restore.{Decodes, write_out-restores}
use open_prlx.Aggregator.Valid.{core}
use open_prlx.Aggregator.Valid.Moves.{update_self}
use open_prlx.Aggregator.Valid.Working.{Working}
use open_prlx.Aggregator.Valid.Finish.{IsAt}
use open_prlx.Aggregator.Valid.Decode.{apply_fec-some, with_fragments, decoded}

module _ (fec_decode : Fec → List Bytes → List ℕ → List Bytes) where
  -- In a window entry of a block whose counter is at `k`, where the fragments that are marked are
  -- blocks of one codeword, `apply_fec` returns, and then all `k` data fragments of the entry are
  -- the codeword's. This supposes that `fec_decode`, given `k` blocks of the codeword, each data
  -- block in its own place and the parity blocks in the places of others in growing order, gives
  -- the data blocks that are absent.
  pub apply_fec-restores :
      {x k n : ℕ} (a : Aggregator) (i : ℕ)
      → IsAt x (core a) i
      → Working x k n (core a)
      → (a.rx_ring i).has_fragments ≡ k
      → (word : ℕ → Bytes) → Decodes fec_decode (record { k = k; n = n }) word
      → ((j : ℕ)
          → j < n
          → get_or (a.rx_ring i).fragment_map j false ≡ true
          → get_or (a.rx_ring i).fragments j [] ≡ word j)
      → (b : Aggregator) × (apply_fec fec_decode a i ≡ some b)
        × ((j : ℕ) → j < k → get_or (b.rx_ring i).fragments j [] ≡ word j)
  apply_fec-restores {x} {k} {n} a i at w full word decodes here =
      let (p, v, e) = apply_fec-some fec_decode a i at w full in
      (
        with_fragments fec_decode a i (decoded fec_decode k n (a.rx_ring i) p),
        e,
        λ j inside.
            ap (λ it. get_or it.fragments j []) (update_self a.rx_ring i _)
            ∙ write_out-restores fec_decode word (a.rx_ring i) k n p decodes w.has_code.k_le
                (w.window.sized i).buf_len here v j inside,
      )
