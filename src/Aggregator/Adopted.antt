-- ===== src/Aggregator/Adopted.antt =====
-- `process_packet` of src/wifi/WFBProcessor.cpp: which packets change the session, and to what.
use open_prlx.Prelude.{
  ℕ, slice?-some, get_elem?, ◌>>=◌, ◌∙◌, ◌+◌, ◌%◌, ◌^◌, ◌==◌, ==_iff, ◌≡◌, ◌≤◌, ◌⊎◌, inl, inr, refl,
  ap, subst, if◌then◌else◌, if_true, ltb, Bool, true, false, Option, none, some, [], pos,
  Bool-cases, take, drop, length, arith,
}
use open_prlx.Wire.{
  Bytes, SessionData, read_session_data, same_bytes, wblock_hdr_size, wpacket_hdr_size,
  wsession_hdr_size, wsession_data_size, box_mac_bytes, wfb_packet_data, wfb_packet_key,
  wfb_fec_vdm_rs, max_forwarder_packet_size,
}
use open_prlx.Aggregator.{Aggregator, Fec}
use open_prlx.Aggregator.Packet.{
  Library, deinit_fec, init_fec, count_bad, count_dec_err, count_dec_ok, is_acceptable,
  adopt_session, process_data, open_session, process_session, switch_kind, dispatch, process_packet,
}
use open_prlx.Aggregator.Identity.{Identity, identity, identity-IsKept}
use open_prlx.Aggregator.Kept.{Holds}
use open_prlx.Aggregator.Kept.Packets.{kept-process_data}

-- The session that a session packet announces.
abbrev pub announced : Identity → SessionData → Identity
announced i s = record i {
  epoch = s.epoch;
  session_key = s.session_key;
  fec_p = some (record { k = s.k; n = s.n });
  fec_k = pos s.k;
  fec_n = pos s.n;
}

-- The packet is a session packet of its one size that opens under the aggregator's keys, and announces a new key,
-- with an epoch that is not older, for the aggregator's channel, and a code that is known.
pub record Adopted (library : Library) (i : Identity) (buf : Bytes) (b : Aggregator) : Type 0 where
  pub plain : Bytes
  pub size : length buf ≡ 88
  pub kind : get_elem? buf 0 ≡ some wfb_packet_key
  pub opened :
      library.box_open (take 63 (drop 25 buf)) (take 24 (drop 1 buf)) i.tx_publickey i.rx_secretkey
      ≡ some plain
  pub newer : i.epoch ≤ (read_session_data plain).epoch
  pub channel : (read_session_data plain).channel_id ≡ i.channel_id
  pub fec_type : (read_session_data plain).fec_type ≡ wfb_fec_vdm_rs
  pub some_k : 1 ≤ (read_session_data plain).k
  pub k_le : (read_session_data plain).k ≤ (read_session_data plain).n
  pub other_key : same_bytes i.session_key (read_session_data plain).session_key ≡ false
  pub adopted : identity b ≡ announced i (read_session_data plain)

module _ (library : Library) (buf : Bytes) where
  abbrev Moves : Identity → Option Aggregator → Type 0
  Moves i none = Unit
  Moves i (some b) = (identity b ≡ i) ⊎ Adopted library i buf b

  Moves-if :
      (i : Identity) (b : Bool) (x y : Option Aggregator)
      → (b ≡ true → Moves i x)
      → (b ≡ false → Moves i y)
      → Moves i (if b then x else y)
  Moves-if i true x y f g = f refl
  Moves-if i false x y f g = g refl

  Holds-Moves : (i : Identity) (o : Option Aggregator) → Holds (λ a. identity a ≡ i) o → Moves i o
  Holds-Moves i none h = tt
  Holds-Moves i (some b) h = inl h

  announces :
      (a : Aggregator) (s : SessionData)
      → same_bytes a.session_key s.session_key ≡ false
      → identity (adopt_session a s) ≡ announced (identity a) s
  unfolding adopt_session init_fec deinit_fec
  announces a s other =
      other_branch (same_bytes a.session_key s.session_key) a
        (init_fec (elim a.fec_p [ none ↦ b | some q ↦ deinit_fec b ]) s.k s.n) other (go a.fec_p)
    where
      b : Aggregator
      b = record a { epoch = s.epoch; session_key = s.session_key }

      go :
          (p : Option Fec)
          → identity (init_fec (elim p [ none ↦ b | some q ↦ deinit_fec b ]) s.k s.n)
            ≡ announced (identity a) s
      go none = refl
      go (some q) = refl

      other_branch :
          (t : Bool) (x y : Aggregator)
          → t ≡ false
          → identity y ≡ announced (identity a) s
          → identity (if t then x else y) ≡ announced (identity a) s
      other_branch true x y e f = absurd (cc e)
      other_branch false x y e f = f

  accepted :
      (a : Aggregator) (s : SessionData)
      → is_acceptable a s ≡ true
      → (a.epoch ≤ s.epoch)
        × (s.channel_id ≡ a.channel_id)
        × (s.fec_type ≡ wfb_fec_vdm_rs)
        × (1 ≤ s.k)
        × (s.k ≤ s.n)
  unfolding is_acceptable
  accepted a s h = ground (arith, h)

  Opens : Aggregator → Bytes → Type 0
  Opens a plain =
      library.box_open (take 63 (drop 25 buf)) (take 24 (drop 1 buf)) a.tx_publickey a.rx_secretkey
      ≡ some plain

  adopts :
      (a : Aggregator) (plain : Bytes)
      → length buf ≡ 88
      → get_elem? buf 0 ≡ some wfb_packet_key
      → Opens a plain
      → is_acceptable a (read_session_data plain) ≡ true
      → Moves (identity a) (some (adopt_session (count_dec_ok a) (read_session_data plain)))
  unfolding count_dec_ok adopt_session Opens
  adopts a plain size kind opened good =
      let s = read_session_data plain in
      let (newer, channel, fec_type, some_k, k_le) = accepted a s good in
      elim (Bool-cases (same_bytes a.session_key s.session_key)) [
        | inl same ↦ inl (ap identity (if_true (count_dec_ok a) _ same))
        | inr other ↦ inr (record {
          plain = plain;
          size = size;
          kind = kind;
          opened = opened;
          newer = newer;
          channel = channel;
          fec_type = fec_type;
          some_k = some_k;
          k_le = k_le;
          other_key = other;
          adopted = announces (count_dec_ok a) s other;
        })
      ]

  open_session-Moves :
      (a : Aggregator) (o : Option Bytes)
      → length buf ≡ 88
      → get_elem? buf 0 ≡ some wfb_packet_key
      → ((plain : Bytes) → o ≡ some plain → Opens a plain)
      → Moves (identity a) (some (open_session a o))
  unfolding open_session count_dec_err
  open_session-Moves a none size kind opens = inl refl
  open_session-Moves a (some plain) size kind opens =
      let s = read_session_data plain in
      elim (Bool-cases (is_acceptable a s)) [
        | inl good ↦ rw good (adopts a plain size kind (opens plain refl) good)
        | inr bad ↦ rw bad (inl refl)
      ]

  process_session-Moves :
      (a : Aggregator)
      → length buf ≡ 88
      → get_elem? buf 0 ≡ some wfb_packet_key
      → Moves (identity a) (process_session library a buf)
  unfolding process_session Opens
  process_session-Moves a size kind = rw (slice?-some buf 25 63 (omega (arith, size))) (
      rw (slice?-some buf 1 24 (omega (arith, size)))
        (open_session-Moves a _ size kind λ plain e. e))

  switch_kind-Moves :
      (a : Aggregator) (kind : ℕ)
      → get_elem? buf 0 ≡ some kind
      → Moves (identity a) (switch_kind library a buf kind)
  unfolding switch_kind count_bad
  switch_kind-Moves a kind first =
      let i = identity a in
      let short = ltb (length buf) (wblock_hdr_size + wpacket_hdr_size) in
      let whole = length buf == (wsession_hdr_size + wsession_data_size + box_mac_bytes) in
      let bad = some (count_bad a) in
      let video = if short then bad else process_data library a buf in
      let session = if whole then process_session library a buf else bad in
      Moves-if i (kind == wfb_packet_data) video (if kind == wfb_packet_key then session else bad)
        (λ _.
          Moves-if i short bad (process_data library a buf) (λ _. inl refl)
            λ _.
              Holds-Moves i (process_data library a buf)
                (kept-process_data library (identity-IsKept i library.fec_decode) a buf refl))
        λ _.
          Moves-if i (kind == wfb_packet_key) session bad
            (λ key.
              Moves-if i whole (process_session library a buf) bad
                (λ size.
                  process_session-Moves a ((==_iff (length buf) 88).0 size)
                    (first ∙ ap some ((==_iff kind wfb_packet_key).0 key)))
                λ _. inl refl)
            λ _. inl refl

  dispatch-Moves : (a : Aggregator) → Moves (identity a) (dispatch library a buf)
  unfolding dispatch
  dispatch-Moves a = by_first (get_elem? buf 0) refl
    where
      by_first :
          (o : Option ℕ)
          → get_elem? buf 0 ≡ o
          → Moves (identity a) (o >>= λ kind. switch_kind library a buf kind)
      by_first none e = tt
      by_first (some kind) e = switch_kind-Moves a kind e

  process_packet-Moves : (a : Aggregator) → Moves (identity a) (process_packet library a buf)
  unfolding process_packet count_bad
  process_packet-Moves a =
      let i = identity a in
      let b = record a { count_p_all = (a.count_p_all + 1) % 2 ^ 32; sent = [] } in
      let long = ltb max_forwarder_packet_size (length buf) in
      Moves-if i (length buf == 0) (some b)
        (if long then some (count_bad b) else dispatch library b buf) (λ _. inl refl)
        λ _.
          Moves-if i long (some (count_bad b)) (dispatch library b buf) (λ _. inl refl)
            λ _. dispatch-Moves b

  moved :
      (i : Identity) (o : Option Aggregator) (b : Aggregator)
      → Moves i o
      → o ≡ some b
      → Moves i (some b)
  moved i o b h e = subst (Moves i) e h

-- Whatever the packet, after `process_packet` the session is as before, that is the epoch, the channel,
-- the keys and the code, or the packet is a session packet of 88 bytes that opens under the aggregator's keys and
-- announces a new key, with an epoch that is not older, for the aggregator's channel, with a known
-- type of code and 1 ≤ k ≤ n, and then the session is the announced one.
pub process_packet-Adopted :
    (library : Library) (a : Aggregator) (buf : Bytes) (b : Aggregator)
    → process_packet library a buf ≡ some b
    → (identity b ≡ identity a) ⊎ Adopted library (identity a) buf b
process_packet-Adopted library a buf b =
    moved library buf (identity a) (process_packet library a buf) b
      (process_packet-Moves library buf a)
