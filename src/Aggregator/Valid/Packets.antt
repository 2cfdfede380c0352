-- ===== src/Aggregator/Valid/Packets.antt =====
-- `process_packet` on any input: no `assert` fails, and the invariant is kept.
use open_prlx.Prelude.{
  slice?-some, get_elem?-some, length-take, ◌-◌, ℕ, ◌+◌, ◌/◌, ◌%◌, ◌^◌, ◌≤◌, ◌<◌, ◌≡◌, ◌⊎◌, subst,
  sym, List, none, inl, inr, refl, Bool, true, false, Option, some, [], arith, ltb, ◌==◌,
  Bool-cases, get_or, length, length-replicate, le→leb, drop, take, negsuc, pos, ℤ,
}
use open_prlx.Wire.{
  Bytes, same_bytes, SessionData, read_session_data, aead_a_bytes, max_fec_payload, max_block_idx,
  max_forwarder_packet_size, be_to_host, wblock_hdr_size, wpacket_hdr_size, wsession_hdr_size,
  wsession_data_size, box_mac_bytes, wfb_packet_data, wfb_packet_key,
}
use open_prlx.Aggregator.{Aggregator, Sent, Fec, ge_int, new}
use open_prlx.Aggregator.Order.{Sends, nothing, floor_of}
use open_prlx.Aggregator.Packet.{
  Library, deinit_fec, init_fec, count_bad, count_dec_err, count_dec_ok, is_acceptable,
  adopt_session, process_decrypted, open_data, process_data, open_session, process_session,
  switch_kind, dispatch, process_packet,
}
use open_prlx.Aggregator.Valid.{InSession, IsValid, core}
use open_prlx.Aggregator.Valid.Total.{process_fragment-Ends}

-- The plaintext of an authenticated packet is the ciphertext without its tag.
abbrev pub HasTag : Library → Type 0
HasTag library =
    (c ad nonce key plain : Bytes)
    → library.aead_open c ad nonce key ≡ some plain
    → length plain + aead_a_bytes ≡ length c

-- The call comes to an end in a state that is well formed.
abbrev pub Safe : Option Aggregator → Type 0
Safe r = (b : Aggregator) × (r ≡ some b) × IsValid b

-- Besides, either another session key has been taken, and nothing was sent, or fragments were sent
-- in order from the position `lo` on, and up to where `b` sends next.
abbrev pub Continues : Bytes → ℕ → List Sent → Aggregator → Type 0
Continues key lo log b =
    ((same_bytes key b.session_key ≡ false) × (b.sent ≡ log))
    ⊎ Sends lo log (floor_of (core b)) b.sent

abbrev pub Passes : Aggregator → Option Aggregator → Type 0
Passes a r =
    (b : Aggregator) × (r ≡ some b)
    × IsValid b
    × Continues a.session_key (floor_of (core a)) a.sent b

count_bad-Passes : (a : Aggregator) → IsValid a → Passes a (some (count_bad a))
unfolding count_bad
count_bad-Passes a v = (count_bad a, refl, v, inr (nothing (omega arith)))

count_dec_err-Passes : (a : Aggregator) → IsValid a → Passes a (some (count_dec_err a))
unfolding count_dec_err
count_dec_err-Passes a v = (count_dec_err a, refl, v, inr (nothing (omega arith)))

count_dec_ok-IsValid : (a : Aggregator) → IsValid a → IsValid (count_dec_ok a)
unfolding count_dec_ok
count_dec_ok-IsValid a v = v

Passes-count_dec_ok :
    (a : Aggregator) (r : Option Aggregator) → Passes (count_dec_ok a) r → Passes a r
unfolding count_dec_ok
Passes-count_dec_ok a r p = p

ge_int_no : {n : ℕ} {z : ℤ} (f : ℕ) → z ≡ pos n → ge_int f z ≡ false → f < n
ge_int_no {n} {z} f e = rw e (λ h. ground (arith, h))

ge_int_idle : {z : ℤ} (f : ℕ) → z ≡ negsuc 0 → ge_int f z ≡ true
ge_int_idle f e = rw e (ground arith)

-- An accepted session has 1 ≤ k ≤ n.
is_acceptable-code :
    (a : Aggregator) (s : SessionData) → is_acceptable a s ≡ true → (1 ≤ s.k) × (s.k ≤ s.n)
unfolding is_acceptable
is_acceptable-code a s h = ground (arith, h)

pub init_fec-InSession :
    (a : Aggregator) (k n : ℕ) → 1 ≤ k → k ≤ n → n < 256 → InSession k n (core (init_fec a k n))
unfolding init_fec
init_fec-InSession a k n k_pos k_le n_byte = record {
  has_code = record {
    code = refl;
    k_eq = refl;
    n_eq = refl;
    k_pos = k_pos;
    k_le = k_le;
    n_byte = n_byte;
  };
  window = record {
    front_in = omega arith;
    alloc_in = omega arith;
    sized = λ i. record { map_len = length-replicate n false; buf_len = length-replicate n _ };
    blocks = λ j p q. absurd (omega (arith, p));
    opened = λ j p. absurd (omega (arith, p));
    busy = λ p. absurd (omega (arith, p));
  };
  known = inl (refl, refl);
}

-- A new aggregator has no session.
pub new-IsValid :
    (keypair : Bytes) (epoch channel_id : ℕ) (dcb : Bool)
    → IsValid (new keypair epoch channel_id dcb)
unfolding new
new-IsValid keypair epoch channel_id dcb = inl (record { no_code = refl; no_k = refl; no_n = refl })

adopt_session-Passes :
    (a : Aggregator) (s : SessionData)
    → IsValid a
    → (1 ≤ s.k) × (s.k ≤ s.n)
    → s.n < 256
    → Passes a (some (adopt_session a s))
unfolding adopt_session init_fec deinit_fec
adopt_session-Passes a s v code byte = elim (Bool-cases (same_bytes a.session_key s.session_key)) [
  | inl same ↦ rw same (a, refl, v, inr (nothing (omega arith)))
  | inr other ↦
      let b = record a { epoch = s.epoch; session_key = s.session_key } in
      let c : Aggregator = elim b.fec_p as (λ _. Aggregator) [ none ↦ b | some p ↦ deinit_fec b ] in
      let (key, log) = freed b b.fec_p in
      rw other (
        init_fec c s.k s.n,
        refl,
        inr (s.k, s.n, init_fec-InSession c s.k s.n code.0 code.1 byte),
        inl (subst (λ k. same_bytes a.session_key k ≡ false) (sym key) other, log),
      )
]
  where
    freed :
        (b : Aggregator) (o : Option Fec)
        → ((elim o as (λ _. Aggregator) [ none ↦ b | some p ↦ deinit_fec b ]).session_key
            ≡ b.session_key)
          × ((elim o as (λ _. Aggregator) [ none ↦ b | some p ↦ deinit_fec b ]).sent ≡ b.sent)
    freed b none = (refl, refl)
    freed b (some p) = (refl, refl)

module _ (library : Library) (has_tag : HasTag library) where
  process_decrypted-Passes :
      (a : Aggregator) (nonce : ℕ) (plain : Bytes)
      → IsValid a
      → Passes a (process_decrypted library a nonce plain)
  unfolding process_decrypted
  process_decrypted-Passes a nonce plain v =
      let block = nonce / 2 ^ 8 in
      let f = nonce % 2 ^ 8 in
      elim (Bool-cases (ltb max_block_idx block)) [
        | inl large ↦ rw large (count_bad-Passes a v)
        | inr small ↦ elim (Bool-cases (ge_int f a.fec_n)) [
          | inl beyond ↦ rw (small, beyond) (count_bad-Passes a v)
          | inr within ↦ elim v [
            | inl idle ↦ absurd (cc (within, ge_int_idle f idle.no_n))
            | inr (k, n, s) ↦
                let (b, e, t, sends) =
                  process_fragment-Ends library a block f plain s (ground (arith, small))
                    (ge_int_no f s.has_code.n_eq within) in
                rw (small, within) (b, e, inr (k, n, t), inr sends)
          ]
        ]
      ]

  open_data-Passes :
      (a : Aggregator) (nonce : ℕ) (o : Option Bytes)
      → ((plain : Bytes) → o ≡ some plain → length plain ≤ max_fec_payload)
      → IsValid a
      → Passes a (open_data library a nonce o)
  unfolding open_data
  open_data-Passes a nonce none fits v = count_dec_err-Passes a v
  open_data-Passes a nonce (some plain) fits v =
      rw (le→leb (length plain) max_fec_payload (fits plain refl)) (
        Passes-count_dec_ok a (process_decrypted library (count_dec_ok a) nonce plain)
          (process_decrypted-Passes (count_dec_ok a) nonce plain (count_dec_ok-IsValid a v)))

  process_data-Passes :
      (a : Aggregator) (buf : Bytes)
      → 9 ≤ length buf
      → length buf ≤ max_forwarder_packet_size
      → IsValid a
      → Passes a (process_data library a buf)
  unfolding process_data
  process_data-Passes a buf has_header short v =
      let rest = length buf - 9 in
      let header = take 9 (drop 0 buf) in
      let nonce = take 8 (drop 1 header) in
      let ciphertext = take rest (drop 9 buf) in
      rw (slice?-some buf 0 9 (omega (arith, has_header))) (
        rw (slice?-some buf 9 rest (omega (arith, has_header))) (
          open_data-Passes a (be_to_host nonce)
            (library.aead_open ciphertext header nonce a.session_key)
            (λ plain e.
              omega (arith, has_tag _ _ _ _ plain e, length-take rest (drop 9 buf), short))
            v))

  open_session-Passes :
      (a : Aggregator) (o : Option Bytes) → IsValid a → Passes a (some (open_session a o))
  unfolding open_session read_session_data
  open_session-Passes a none v = count_dec_err-Passes a v
  open_session-Passes a (some plain) v =
      let s = read_session_data plain in
      elim (Bool-cases (is_acceptable a s)) [
        | inr bad ↦ rw bad (count_dec_err-Passes a v)
        | inl good ↦ rw good (
            Passes-count_dec_ok a (some (adopt_session (count_dec_ok a) s)) (
              adopt_session-Passes (count_dec_ok a) s (count_dec_ok-IsValid a v)
                (is_acceptable-code a s good) (omega arith)))
      ]

  process_session-Passes :
      (a : Aggregator) (buf : Bytes)
      → length buf ≡ 88
      → IsValid a
      → Passes a (process_session library a buf)
  unfolding process_session
  process_session-Passes a buf whole v =
      rw (slice?-some buf 25 63 (omega (arith, whole)))
        (rw (slice?-some buf 1 24 (omega (arith, whole))) (open_session-Passes a _ v))

  switch_kind-Passes :
      (a : Aggregator) (buf : Bytes) (kind : ℕ)
      → length buf ≤ max_forwarder_packet_size
      → IsValid a
      → Passes a (switch_kind library a buf kind)
  unfolding switch_kind
  switch_kind-Passes a buf kind short v =
      let size = length buf in
      let bad = count_bad-Passes a v in
      elim (Bool-cases (kind == wfb_packet_data)) [
        | inl video ↦ elim (Bool-cases (ltb size (wblock_hdr_size + wpacket_hdr_size))) [
          | inl small ↦ rw (video, small) bad
          | inr whole ↦
              rw (video, whole) (process_data-Passes a buf (ground (arith, whole)) short v)
        ]
        | inr other ↦ elim (Bool-cases (kind == wfb_packet_key)) [
          | inr unknown ↦ rw (other, unknown) bad
          | inl key ↦
              elim (Bool-cases (size == (wsession_hdr_size + wsession_data_size + box_mac_bytes))) [
                | inr odd ↦ rw (other, key, odd) bad
                | inl whole ↦
                    rw (other, key, whole) (process_session-Passes a buf (ground (arith, whole)) v)
              ]
        ]
      ]

  dispatch-Passes :
      (a : Aggregator) (buf : Bytes)
      → 0 < length buf
      → length buf ≤ max_forwarder_packet_size
      → IsValid a
      → Passes a (dispatch library a buf)
  unfolding dispatch
  dispatch-Passes a buf more short v =
      rw (get_elem?-some buf 0 0 more) (switch_kind-Passes a buf (get_or buf 0 0) short v)

  pub process_packet-Passes :
      (a : Aggregator) (buf : Bytes)
      → IsValid a
      → Passes (record a { sent = [] }) (process_packet library a buf)
  unfolding process_packet
  process_packet-Passes a buf v =
      let b = record a { count_p_all = (a.count_p_all + 1) % 2 ^ 32; sent = [] } in
      let size = length buf in
      elim (Bool-cases (size == 0)) [
        | inl empty ↦ rw empty (b, refl, v, inr (nothing (omega arith)))
        | inr more ↦ elim (Bool-cases (ltb max_forwarder_packet_size size)) [
          | inl long ↦ rw (more, long) (count_bad-Passes b v)
          | inr short ↦
              rw (more, short)
                (dispatch-Passes b buf (ground (arith, more)) (ground (arith, short)) v)
        ]
      ]

  -- On any packet, of any size and content, `process_packet` returns: none of its `assert`s fails,
  -- the plaintext fits its buffer, nothing is read past the packet, and no unset entry of the arrays
  -- for `fec_decode` is read. It keeps the invariant `IsValid`. This supposes of libsodium that a plaintext is as long as its
  -- ciphertext without the tag.
  pub process_packet-IsValid :
      (a : Aggregator) → IsValid a → (buf : Bytes) → Safe (process_packet library a buf)
  process_packet-IsValid a v buf = let (b, e, w, _) = process_packet-Passes a buf v in (b, e, w)
