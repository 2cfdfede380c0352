-- ===== src/Rtp/Tests.antt =====
-- The layout of a packet with a contributing source and padding.
use open_prlx.Prelude.{ℕ, ◌+◌, ◌≡◌, ◌⊎◌, arith, ℤ, pos_part, some, [], ◌∷◌, ◌++◌, replicate}
use open_prlx.Wire.{Bytes}
use open_prlx.Rtp.{get_payload_offset, get_padding_size, get_payload_size}
use open_prlx.Rtp.Bounds.{get_payload_size-layout}

abbrev packet : Bytes
packet = (161 ∷ 96 ∷ []) ++ replicate 90 2

get_payload_size-layout_example :
    (plen : ℤ) × (offset : ℕ) × (padding : ℕ) × (get_payload_size packet 30 ≡ some plen)
    × (get_payload_offset packet ≡ some offset)
    × (get_padding_size packet 30 ≡ some padding)
    × ((pos_part plen ≡ 0) ⊎ (12 + offset + pos_part plen + padding ≡ 30))
get_payload_size-layout_example =
    get_payload_size-layout packet 30 (omega arith) (omega arith) (omega arith)
