-- ===== src/Aggregator/Whole.antt =====
-- The fragment buffers of src/wifi/WFBProcessor.cpp keep their size, and so what `send_packet` gives
-- to `dcb` is in a buffer that holds it.
use open_prlx.Prelude.{
  slice?, get_elem?, if_both, ℕ, zero, suc, ◌+◌, ◌-◌, ◌%◌, ◌^◌, ◌==◌, ◌&&◌, ◌≤◌, ◌≡◌, ◌⊎◌, not, inl,
  inr, refl, ap, ◌∙◌, if◌then◌else◌, ltb, Bool, true, false, Option, none, some, List, [], ◌∷◌,
  ◌++◌, arith, get_or, set, take, drop, length, length-drop, length-append, length-replicate,
  replicate, All, All-set, All-replicate,
}
use open_prlx.Wire.{
  Bytes, be_from, be_to_host, same_bytes, SessionData, read_session_data, wpacket_hdr_size,
  max_payload_size, max_fec_payload, wblock_hdr_size, wsession_hdr_size, wsession_data_size,
  box_mac_bytes, wfb_packet_data, wfb_packet_key, max_forwarder_packet_size,
}
use open_prlx.Aggregator.{Aggregator, Fec, RingItem, new}
use open_prlx.Aggregator.Send.{send_packet}
use open_prlx.Aggregator.Recover.{write_out}
use open_prlx.Aggregator.Packet.{
  Library, stored, store_fragment, deinit_fec, init_fec, count_bad, count_dec_err, count_dec_ok,
  is_acceptable, adopt_session, process_data, open_session, process_session, switch_kind, dispatch,
  process_packet,
}
use open_prlx.Aggregator.Valid.Moves.{update_all}
use open_prlx.Aggregator.Kept.{IsKept, Holds, Holds-bind}
use open_prlx.Aggregator.Kept.Packets.{kept-process_data}

-- A buffer of MAX_FEC_PAYLOAD bytes. A read of the array of buffers past its end gives the model no
-- bytes.
abbrev pub IsWhole : Bytes → Type 0
IsWhole b = length b ≡ max_fec_payload

-- The buffer holds the packet's size, and what a header takes.
abbrev pub HoldsSize : Bytes → ℕ → Type 0
HoldsSize buf size = ((76 ≤ length buf) × (size ≤ length buf)) ⊎ (size ≡ 0)

abbrev pub IsPassable : Option (Bytes × ℕ) → Type 0
IsPassable none = Unit
IsPassable (some (buf, size)) = HoldsSize buf size

pub record IsHeld (a : Aggregator) : Type 0 where
  pub buffers : (i : ℕ) → All IsWhole (a.rx_ring i).fragments
  pub passed : All (λ s. IsPassable s.payload) a.sent

-- `fec_decode` writes blocks of the size that it is given, which is always MAX_FEC_PAYLOAD.
abbrev pub MakesBlocks : (Fec → List Bytes → List ℕ → List Bytes) → Type 0
MakesBlocks fec_decode =
    (p : Fec) (blocks : List Bytes) (index : List ℕ) → All IsWhole (fec_decode p blocks index)

passable :
    (corrupted even given : Bool) (buf : Bytes) (size : ℕ)
    → (corrupted ≡ false → HoldsSize buf size)
    → IsPassable (if not corrupted && even && given then some (buf, size) else none)
passable true even given buf size h = tt
passable false true true buf size h = h refl
passable false true false buf size h = tt
passable false false given buf size h = tt

no_size : be_to_host [] ≡ 0
unfolding be_to_host be_from
no_size = refl

fragment_HoldsSize :
    (b : Bytes)
    → (IsWhole b ⊎ (b ≡ []))
    → ltb max_payload_size (be_to_host (take 2 (drop 1 b))) ≡ false
    → HoldsSize (drop wpacket_hdr_size b) (be_to_host (take 2 (drop 1 b)))
fragment_HoldsSize b (inl whole) fits = inl (
  omega (arith, length-drop wpacket_hdr_size b, whole),
  ground (arith, length-drop wpacket_hdr_size b, whole, fits),
)
fragment_HoldsSize b (inr empty) fits =
    inr (ap (λ x. be_to_host (take 2 (drop 1 x))) empty ∙ no_size)

write_out-IsWhole :
    (fragments : List Bytes) (out : List ℕ) (blocks : List Bytes)
    → All IsWhole fragments
    → All IsWhole blocks
    → All IsWhole (write_out fragments out blocks)
unfolding write_out
write_out-IsWhole fragments [] blocks h k = h
write_out-IsWhole fragments (i ∷ out) [] h k = h
write_out-IsWhole fragments (i ∷ out) (b ∷ blocks) h k =
    write_out-IsWhole (set fragments i b) out blocks (All-set IsWhole fragments i b k.0 h) k.1

get_or-IsWhole :
    (xs : List Bytes) (i : ℕ) → All IsWhole xs → IsWhole (get_or xs i []) ⊎ (get_or xs i [] ≡ [])
get_or-IsWhole [] i h = inr refl
get_or-IsWhole (x ∷ xs) zero h = inl h.0
get_or-IsWhole (x ∷ xs) (suc i) h = get_or-IsWhole xs i h.1

stored-IsWhole :
    (plain : Bytes)
    → length plain ≤ max_fec_payload
    → IsWhole (plain ++ replicate (max_fec_payload - length plain) 0)
stored-IsWhole plain fits = omega (
  arith,
  length-append plain (replicate (max_fec_payload - length plain) 0),
  length-replicate {A = ℕ} (max_fec_payload - length plain) 0,
)

abbrev AllWhole : RingItem → Type 0
AllWhole item = All IsWhole item.fragments

module _ (fec_decode : Fec → List Bytes → List ℕ → List Bytes)
    (makes : MakesBlocks fec_decode) where
  pub IsHeld-IsKept : IsKept fec_decode IsHeld
  unfolding send_packet store_fragment stored
  IsHeld-IsKept = record {
    counts = λ a front alloc last dec_err dec_ok recovered bad override h. record {
      buffers = h.buffers;
      passed = h.passed;
    };
    sends = λ a i f h.
        let b = get_or (a.rx_ring i).fragments f [] in
        record {
          buffers = h.buffers;
          passed = (
            passable (ltb max_payload_size (be_to_host (take 2 (drop 1 b)))) (get_or b 0 0 % 2 == 0)
                a.dcb (drop wpacket_hdr_size b) (be_to_host (take 2 (drop 1 b)))
                (fragment_HoldsSize b (get_or-IsWhole (a.rx_ring i).fragments f (h.buffers i))),
            h.passed,
          );
        };
    marks = λ a i block cursor has m h. record {
      buffers = update_all AllWhole a.rx_ring i _ (h.buffers i) h.buffers;
      passed = h.passed;
    };
    stores = λ a i f plain fits h. record {
      buffers =
          update_all AllWhole a.rx_ring i _
            (All-set IsWhole (a.rx_ring i).fragments f _ (stored-IsWhole plain fits) (h.buffers i))
            h.buffers;
      passed = h.passed;
    };
    decodes = λ a i p out index blocks h. record {
      buffers =
          update_all AllWhole a.rx_ring i _
            (write_out-IsWhole (a.rx_ring i).fragments out _ (h.buffers i) (makes p blocks index))
            h.buffers;
      passed = h.passed;
    };
  }

pub new-IsHeld :
    (keypair : Bytes) (epoch channel_id : ℕ) (dcb : Bool)
    → IsHeld (new keypair epoch channel_id dcb)
unfolding new
new-IsHeld keypair epoch channel_id dcb = record { buffers = λ i. tt; passed = tt }

pub init_fec-IsHeld :
    (a : Aggregator) (k n : ℕ) → All (λ s. IsPassable s.payload) a.sent → IsHeld (init_fec a k n)
unfolding init_fec
init_fec-IsHeld a k n h = record {
  buffers = λ i.
      All-replicate IsWhole n (replicate max_fec_payload 0)
        (length-replicate {A = ℕ} max_fec_payload 0);
  passed = h;
}

adopt_session-IsHeld : (a : Aggregator) (s : SessionData) → IsHeld a → IsHeld (adopt_session a s)
unfolding adopt_session deinit_fec
adopt_session-IsHeld a s h =
    if_both IsHeld (same_bytes a.session_key s.session_key) a _ (λ _. h) (λ _. go a.fec_p)
  where
    b : Aggregator
    b = record a { epoch = s.epoch; session_key = s.session_key }

    go : (o : Option Fec) → IsHeld (init_fec (elim o [ none ↦ b | some p ↦ deinit_fec b ]) s.k s.n)
    go none = init_fec-IsHeld b s.k s.n h.passed
    go (some p) = init_fec-IsHeld (deinit_fec b) s.k s.n h.passed

module _ (library : Library) (makes : MakesBlocks library.fec_decode) where
  kept : IsKept library.fec_decode IsHeld
  kept = IsHeld-IsKept library.fec_decode makes

  open_session-IsHeld : (a : Aggregator) (o : Option Bytes) → IsHeld a → IsHeld (open_session a o)
  unfolding open_session count_dec_err count_dec_ok
  open_session-IsHeld a none h = kept.counts a _ _ _ _ _ _ _ _ h
  open_session-IsHeld a (some plain) h =
      if_both IsHeld (is_acceptable a (read_session_data plain))
        (adopt_session (count_dec_ok a) (read_session_data plain)) (count_dec_err a)
        (λ _.
          adopt_session-IsHeld (count_dec_ok a) (read_session_data plain)
            (kept.counts a _ _ _ _ _ _ _ _ h))
        (λ _. kept.counts a _ _ _ _ _ _ _ _ h)

  process_session-IsHeld :
      (a : Aggregator) (buf : Bytes) → IsHeld a → Holds IsHeld (process_session library a buf)
  unfolding process_session
  process_session-IsHeld a buf h =
      Holds-bind IsHeld (slice? buf wsession_hdr_size (wsession_data_size + box_mac_bytes)) _
        λ ciphertext. Holds-bind IsHeld (slice? buf 1 24) _ λ nonce.
          open_session-IsHeld a (library.box_open ciphertext nonce a.tx_publickey a.rx_secretkey) h

  switch_kind-IsHeld :
      (a : Aggregator) (buf : Bytes) (kind : ℕ)
      → IsHeld a
      → Holds IsHeld (switch_kind library a buf kind)
  unfolding switch_kind count_bad
  switch_kind-IsHeld a buf kind h =
      let bad = some (count_bad a) in
      let failed = kept.counts a _ _ _ _ _ _ _ _ h in
      let short = ltb (length buf) (wblock_hdr_size + wpacket_hdr_size) in
      let whole = length buf == (wsession_hdr_size + wsession_data_size + box_mac_bytes) in
      let session = process_session library a buf in
      if_both (Holds IsHeld) (kind == wfb_packet_data)
        (if short then bad else process_data library a buf)
        (if kind == wfb_packet_key then if whole then session else bad else bad)
        (λ _.
          if_both (Holds IsHeld) short bad (process_data library a buf) (λ _. failed)
            (λ _. kept-process_data library kept a buf h))
        (λ _.
          if_both (Holds IsHeld) (kind == wfb_packet_key) (if whole then session else bad) bad
            (λ _.
              if_both (Holds IsHeld) whole session bad (λ _. process_session-IsHeld a buf h)
                (λ _. failed))
            (λ _. failed))

  dispatch-IsHeld :
      (a : Aggregator) (buf : Bytes) → IsHeld a → Holds IsHeld (dispatch library a buf)
  unfolding dispatch
  dispatch-IsHeld a buf h =
      Holds-bind IsHeld (get_elem? buf 0) _ λ kind. switch_kind-IsHeld a buf kind h

  pub process_packet-IsHeld :
      (a : Aggregator) (buf : Bytes) → IsHeld a → Holds IsHeld (process_packet library a buf)
  unfolding process_packet count_bad
  process_packet-IsHeld a buf h =
      let b = record a { count_p_all = (a.count_p_all + 1) % 2 ^ 32; sent = [] } in
      let held : IsHeld b = record { buffers = h.buffers; passed = tt } in
      let long = ltb max_forwarder_packet_size (length buf) in
      if_both (Holds IsHeld) (length buf == 0) (some b)
        (if long then some (count_bad b) else dispatch library b buf) (λ _. held)
        (λ _.
          if_both (Holds IsHeld) long (some (count_bad b)) (dispatch library b buf)
            (λ _. kept.counts b _ _ _ _ _ _ _ _ held) (λ _. dispatch-IsHeld b buf held))
