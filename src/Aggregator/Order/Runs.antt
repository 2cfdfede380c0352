-- ===== src/Aggregator/Order/Runs.antt =====
-- The calls of `send_packet` in a run of `process_packet` over the packets of one session.
use open_prlx.Prelude.{
  ℕ, ◌≡◌, inl, inr, sym, ◌∙◌, subst, true, arith, List, [], ◌++◌, some, some-injective,
}
use open_prlx.Wire.{Bytes, same_bytes}
use open_prlx.Aggregator.{Aggregator, Sent}
use open_prlx.Aggregator.Packet.{Library, process_packet}
use open_prlx.Aggregator.Valid.{core, IsValid}
use open_prlx.Aggregator.Valid.Packets.{HasTag, Continues, process_packet-Passes}
use open_prlx.Aggregator.Order.{Sends, nothing, one_more, Sends-trans, floor_of}

module _ (library : Library) where
  -- The packets that come while the session key stays, and the log of all calls, last first.
  pub data Run (a : Aggregator) : List Sent → Aggregator → Type 0 where
    start : Run a [] a
    packet :
        {log : List Sent} {b c : Aggregator}
        → Run a log b
        → (buf : Bytes) → process_packet library b buf ≡ some c
        → same_bytes b.session_key c.session_key ≡ true
        → Run a (c.sent ++ log) c

  -- Calls after others.
  Sends-append :
      {lo mid hi : ℕ} {log log' : List Sent}
      → Sends lo [] mid log
      → Sends mid [] hi log'
      → Sends lo [] hi (log' ++ log)
  Sends-append p (nothing h) = Sends-trans p (nothing h)
  Sends-append p (one_more s r f g) = one_more s (Sends-append p r) f g

  -- While the session key stays, the calls of `send_packet` over any number of packets are about
  -- fragments in strictly increasing order of block and fragment, none before the one that was next
  -- at the start, and all before the one that is next at the end; and the invariant is kept.
  pub Run-Sends :
      (has_tag : HasTag library) {a : Aggregator} {log : List Sent} {b : Aggregator}
      → IsValid a
      → Run a log b
      → IsValid b × Sends (floor_of (core a)) [] (floor_of (core b)) log
  Run-Sends has_tag v start = (v, nothing (omega arith))
  Run-Sends has_tag v (packet {log} {b} {c} run buf e same) =
      let (w, before) = Run-Sends has_tag v run in
      let (d, e', w', sends) = process_packet-Passes library has_tag b buf w in
      let here = some-injective d c (sym e' ∙ e) in
      (
        subst IsValid here w',
        elim (subst (Continues b.session_key (floor_of (core b)) []) here sends) [
          | inl (other, _) ↦ absurd (cc (same, other))
          | inr after ↦ Sends-append before after
        ],
      )
