-- ===== src/Aggregator/Packet.antt =====
-- `process_packet`, `init_fec` and `deinit_fec` of src/wifi/WFBProcessor.cpp.
use open_prlx.Prelude.{
  slice?, get_elem?, ◌>>=◌, ℕ, zero, suc, ◌+◌, ◌-◌, ◌/◌, ◌%◌, ◌^◌, ◌==◌, ◌&&◌, ◌||◌, ◌++◌, not,
  if◌then◌else◌, ltb, leb, Bool, true, false, Option, none, some, List, [], pos, negsuc, pos_part,
  get_or, set, take, drop, length, replicate,
}
use open_prlx.Wire.{
  Bytes, same_bytes, SessionData, read_session_data, be_to_host, wblock_hdr_size, wpacket_hdr_size,
  wsession_hdr_size, wsession_data_size, box_mac_bytes, max_fec_payload, max_forwarder_packet_size,
  max_block_idx, wfb_packet_data, wfb_packet_key, wfb_fec_vdm_rs,
}
use open_prlx.Aggregator.{Aggregator, RingItem, Fec, no_block, update, lt_int, ge_int, eq_int}
use open_prlx.Aggregator.Send.{send_next}
use open_prlx.Aggregator.Ring.{get_block_ring_idx, remove_front}
use open_prlx.Aggregator.Recover.{flush_and_decode}

-- What the aggregator calls of libsodium, and `fec_decode` of the zfec library. `box_open` is
-- crypto_box_open_easy on a ciphertext, nonce, public and secret key; `aead_open` is
-- crypto_aead_chacha20poly1305_decrypt on a ciphertext, additional data, nonce and key. `none` is
-- a result other than 0.
pub record Library : Type 0 where
  pub box_open : Bytes → Bytes → Bytes → Bytes → Option Bytes
  pub aead_open : Bytes → Bytes → Bytes → Bytes → Option Bytes
  pub fec_decode : Fec → List Bytes → List ℕ → List Bytes

unfoldable pub deinit_fec : Aggregator → Aggregator
deinit_fec a = record a { fec_p = none; fec_k = negsuc 0; fec_n = negsuc 0 }

-- A new fragment buffer has MAX_FEC_PAYLOAD bytes and is not cleared; they are never read before they
-- are written, and the model has zeros.
unfoldable pub init_fec : Aggregator → ℕ → ℕ → Aggregator
init_fec a k n = record a {
  fec_p = some (record { k = k; n = n });
  fec_k = pos k;
  fec_n = pos n;
  rx_ring_front = 0;
  rx_ring_alloc = 0;
  last_known_block = no_block;
  seq = 0;
  rx_ring = λ i. record {
    block_idx = 0;
    fragments = replicate n (replicate max_fec_payload 0);
    fragment_map = replicate n false;
    fragment_to_send_idx = 0;
    has_fragments = 0;
  };
}

unfoldable pub count_bad : Aggregator → Aggregator
count_bad a = record a { count_p_bad = (a.count_p_bad + 1) % 2 ^ 32 }

unfoldable pub count_dec_err : Aggregator → Aggregator
count_dec_err a = record a { count_p_dec_err = (a.count_p_dec_err + 1) % 2 ^ 32 }

unfoldable pub count_dec_ok : Aggregator → Aggregator
count_dec_ok a = record a { count_p_dec_ok = (a.count_p_dec_ok + 1) % 2 ^ 32 }

-- The checks on a session packet that was decrypted.
unfoldable pub is_acceptable : Aggregator → SessionData → Bool
is_acceptable a s =
    not (ltb s.epoch a.epoch)
    && (s.channel_id == a.channel_id)
    && (s.fec_type == wfb_fec_vdm_rs)
    && not (ltb s.n 1)
    && not (ltb s.k 1 || ltb s.n s.k)

unfoldable pub adopt_session : Aggregator → SessionData → Aggregator
adopt_session a s =
    if same_bytes a.session_key s.session_key
    then a
    else (let b = record a { epoch = s.epoch; session_key = s.session_key } in
        init_fec (elim b.fec_p [ none ↦ b | some p ↦ deinit_fec b ]) s.k s.n)

-- The `while` loop over the fragments of the oldest block that came without a gap, with `left`
-- rounds to go at most.
unfoldable pub send_ready : ℕ → Aggregator → ℕ → Aggregator
send_ready zero a ring_idx = a
send_ready (suc left) a ring_idx =
    let p = a.rx_ring ring_idx in
    let rest = send_ready left (send_next a ring_idx) ring_idx in
    if lt_int p.fragment_to_send_idx a.fec_k && get_or p.fragment_map p.fragment_to_send_idx false
    then rest
    else a

-- Clears the fragment's buffer, copies the plaintext in and marks the fragment.
unfoldable pub stored : RingItem → ℕ → Bytes → RingItem
stored p fragment_idx decrypted = record p {
  fragments =
      set p.fragments fragment_idx (decrypted ++ replicate (max_fec_payload - length decrypted) 0);
  fragment_map = set p.fragment_map fragment_idx true;
  has_fragments = (p.has_fragments + 1) % 2 ^ 8;
}

unfoldable pub store_fragment : Aggregator → ℕ → ℕ → Bytes → Aggregator
store_fragment a ring_idx fragment_idx decrypted = record a {
  rx_ring = update a.rx_ring ring_idx (stored (a.rx_ring ring_idx) fragment_idx decrypted);
}

-- What becomes of the decryption of a session packet.
unfoldable pub open_session : Aggregator → Option Bytes → Aggregator
open_session a none = count_dec_err a
open_session a (some plain) =
    let s = read_session_data plain in
    if is_acceptable a s then adopt_session (count_dec_ok a) s else count_dec_err a

module _ (library : Library) where
  open library use {box_open, aead_open, fec_decode}

  unfoldable pub decode_if_full : Aggregator → ℕ → Option Aggregator
  decode_if_full a ring_idx =
      let p = a.rx_ring ring_idx in
      if lt_int p.fragment_to_send_idx a.fec_k && eq_int p.has_fragments a.fec_k
      then flush_and_decode fec_decode a ring_idx
      else some a

  -- From the storing of a new fragment on.
  unfoldable pub after_store : Aggregator → ℕ → Option Aggregator
  after_store a ring_idx =
      if ring_idx == a.rx_ring_front
      then (let from = (a.rx_ring ring_idx).fragment_to_send_idx in
          let b = send_ready (pos_part a.fec_k - from) a ring_idx in
          if eq_int (b.rx_ring ring_idx).fragment_to_send_idx b.fec_k
          then remove_front b
          else decode_if_full b ring_idx)
      else decode_if_full a ring_idx

  -- What becomes of a plaintext fragment.
  unfoldable pub process_fragment : Aggregator → ℕ → ℕ → Bytes → Option Aggregator
  process_fragment a block_idx fragment_idx decrypted = elim (get_block_ring_idx a block_idx) [
    | none ↦ none
    | some (b, none) ↦ some b
    | some (b, some ring_idx) ↦
        if get_or (b.rx_ring ring_idx).fragment_map fragment_idx false
        then some b
        else after_store (store_fragment b ring_idx fragment_idx decrypted) ring_idx
  ]

  -- From the decryption on. The nonce's low byte is the fragment's index.
  unfoldable pub process_decrypted : Aggregator → ℕ → Bytes → Option Aggregator
  process_decrypted a data_nonce decrypted =
      let block_idx = data_nonce / 2 ^ 8 in
      let fragment_idx = data_nonce % 2 ^ 8 in
      if ltb max_block_idx block_idx
      then some (count_bad a)
      else if ge_int fragment_idx a.fec_n
      then some (count_bad a)
      else process_fragment a block_idx fragment_idx decrypted

  -- What becomes of the decryption of a data packet.
  unfoldable pub open_data : Aggregator → ℕ → Option Bytes → Option Aggregator
  open_data a data_nonce none = some (count_dec_err a)
  open_data a data_nonce (some decrypted) =
      if leb (length decrypted) max_fec_payload
      then process_decrypted (count_dec_ok a) data_nonce decrypted
      else none

  -- The header, with the nonce in its last 8 bytes, and the ciphertext, which is the rest.
  unfoldable pub process_data : Aggregator → Bytes → Option Aggregator
  process_data a buf = do
    header ← slice? buf 0 wblock_hdr_size
    ciphertext ← slice? buf wblock_hdr_size (length buf - wblock_hdr_size)
    let nonce : Bytes = take 8 (drop 1 header)
    open_data a (be_to_host nonce) (aead_open ciphertext header nonce a.session_key)

  -- The nonce, and the ciphertext, whose size is fixed.
  unfoldable pub process_session : Aggregator → Bytes → Option Aggregator
  process_session a buf = do
    ciphertext ← slice? buf wsession_hdr_size (wsession_data_size + box_mac_bytes)
    nonce ← slice? buf 1 24
    some (open_session a (box_open ciphertext nonce a.tx_publickey a.rx_secretkey))

  -- The `switch` on the packet's type, with the checks of its size.
  unfoldable pub switch_kind : Aggregator → Bytes → ℕ → Option Aggregator
  switch_kind a buf kind =
      let size = length buf in
      if kind == wfb_packet_data
      then if ltb size (wblock_hdr_size + wpacket_hdr_size)
        then some (count_bad a)
        else process_data a buf
      else if kind == wfb_packet_key
      then if size == (wsession_hdr_size + wsession_data_size + box_mac_bytes)
        then process_session a buf
        else some (count_bad a)
      else some (count_bad a)

  unfoldable pub dispatch : Aggregator → Bytes → Option Aggregator
  dispatch a buf = do kind ← get_elem? buf 0; switch_kind a buf kind

  unfoldable pub process_packet : Aggregator → Bytes → Option Aggregator
  process_packet a buf =
      let b = record a { count_p_all = (a.count_p_all + 1) % 2 ^ 32; sent = [] } in
      let size = length buf in
      if size == 0
      then some b
      else if ltb max_forwarder_packet_size size
      then some (count_bad b)
      else dispatch b buf
