-- ===== src/Aggregator/Identity.antt =====
-- What only a session packet changes: the members that say which session the aggregator is in.
use open_prlx.Prelude.{ℕ, ◌≡◌, Bool, Option, List, ℤ}
use open_prlx.Wire.{Bytes}
use open_prlx.Aggregator.{Aggregator, Fec}
use open_prlx.Aggregator.Send.{send_packet}
use open_prlx.Aggregator.Packet.{store_fragment}
use open_prlx.Aggregator.Kept.{IsKept}

pub record Identity : Type 0 where
  pub fec_p : Option Fec
  pub fec_k : ℤ
  pub fec_n : ℤ
  pub epoch : ℕ
  pub channel_id : ℕ
  pub rx_secretkey : Bytes
  pub tx_publickey : Bytes
  pub session_key : Bytes
  pub dcb : Bool

abbrev pub identity : Aggregator → Identity
identity a = record {
  fec_p = a.fec_p;
  fec_k = a.fec_k;
  fec_n = a.fec_n;
  epoch = a.epoch;
  channel_id = a.channel_id;
  rx_secretkey = a.rx_secretkey;
  tx_publickey = a.tx_publickey;
  session_key = a.session_key;
  dcb = a.dcb;
}

-- No elementary change of a data packet is one of the session.
pub identity-IsKept :
    (i : Identity) (fec_decode : Fec → List Bytes → List ℕ → List Bytes)
    → IsKept fec_decode (λ a. identity a ≡ i)
unfolding send_packet store_fragment
identity-IsKept i fec_decode = record {
  counts = λ a front alloc last dec_err dec_ok recovered bad override h. h;
  sends = λ a j f h. h;
  marks = λ a j block cursor has m h. h;
  stores = λ a j f plain fits h. h;
  decodes = λ a j p out index blocks h. h;
}
