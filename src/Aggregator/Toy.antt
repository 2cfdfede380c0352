-- ===== src/Aggregator/Toy.antt =====
-- Toy decryption, and repetition as the code of the fragments, with a small session, for runs of the
-- functions on concrete inputs.
use open_prlx.Prelude.{
  ℕ, ◌+◌, suc, ◌≡◌, ap, if◌then◌else◌, inl, inr, leb, leb→le, Bool-cases, true, Option, none, some,
  List, [], ◌∷◌, ◌++◌, map, arith, length, length-drop, length-take, length-append,
  length-replicate, take, drop, replicate, All,
}
use open_prlx.Wire.{Bytes, aead_a_bytes, max_fec_payload}
use open_prlx.Aggregator.{Aggregator, new}
use open_prlx.Aggregator.Packet.{Library, init_fec}
use open_prlx.Aggregator.Valid.{InSession, core}
use open_prlx.Aggregator.Valid.Packets.{HasTag, init_fec-InSession}
use open_prlx.Aggregator.Whole.{IsWhole, MakesBlocks}

-- A ciphertext is the plaintext after 16 bytes.
abbrev pub open_tagged : Bytes → Option Bytes
open_tagged c = if leb aead_a_bytes (length c) then some (drop aead_a_bytes c) else none

-- One data fragment, and parity fragments that repeat it.
abbrev pub repeated : List Bytes → List ℕ → List Bytes
repeated (b ∷ []) (suc i ∷ []) = b ∷ []
repeated _ _ = []

abbrev pub toy : Library
toy = record {
  box_open = λ c nonce pk sk. open_tagged c;
  aead_open = λ c ad nonce key. open_tagged c;
  fec_decode = λ p blocks index. repeated blocks index;
}

abbrev pub length_of : Option Bytes → ℕ
length_of none = 0
length_of (some b) = length b

open_tagged-length : (c plain : Bytes) → open_tagged c ≡ some plain → length plain + 16 ≡ length c
open_tagged-length c plain = elim (Bool-cases (leb 16 (length c))) [
  | inr short ↦ rw short (λ e. absurd (cc e))
  | inl long ↦
      rw long
        (λ e. omega (arith, leb→le 16 (length c) long, length-drop 16 c, ap (λ o. length_of o) e))
]

pub toy-HasTag : HasTag toy
toy-HasTag c ad nonce key plain e = open_tagged-length c plain e

-- The same, with blocks of the size that the receiver asks for.
abbrev pub fit : Bytes → Bytes
fit b = take max_fec_payload (b ++ replicate max_fec_payload 0)

abbrev pub whole_toy : Library
whole_toy = record toy { fec_decode = λ p blocks index. map fit (repeated blocks index) }

pub whole_toy-HasTag : HasTag whole_toy
whole_toy-HasTag c ad nonce key plain e = open_tagged-length c plain e

fit-IsWhole : (b : Bytes) → IsWhole (fit b)
fit-IsWhole b = omega (
  arith,
  length-take max_fec_payload (b ++ replicate max_fec_payload 0),
  length-append b (replicate max_fec_payload 0),
  length-replicate {A = ℕ} max_fec_payload 0,
)

All-fit : (blocks : List Bytes) → All IsWhole (map fit blocks)
All-fit [] = tt
All-fit (b ∷ blocks) = (fit-IsWhole b, All-fit blocks)

pub whole_toy-MakesBlocks : MakesBlocks whole_toy.fec_decode
whole_toy-MakesBlocks p blocks index = All-fit (repeated blocks index)

abbrev pub fresh : Aggregator
fresh = new (replicate 64 7) 5 9 true

-- A session with one data fragment and one parity fragment in a block.
abbrev pub session : Aggregator
session = init_fec fresh 1 2

pub session-InSession : InSession 1 2 (core session)
session-InSession = init_fec-InSession fresh 1 2 (omega arith) (omega arith) (omega arith)

-- Block 0, fragment `f`: a packet of 2 bytes, 8 and 9.
abbrev pub data_packet : ℕ → Bytes
data_packet f =
    (1 ∷ 0 ∷ 0 ∷ 0 ∷ 0 ∷ 0 ∷ 0 ∷ 0 ∷ f ∷ []) ++ replicate 16 0 ++ (0 ∷ 0 ∷ 2 ∷ 8 ∷ 9 ∷ [])
