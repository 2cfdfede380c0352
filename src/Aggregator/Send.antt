-- ===== src/Aggregator/Send.antt =====
-- `send_packet` of src/wifi/WFBProcessor.cpp, and the loop that sends what a block still holds.
use open_prlx.Prelude.{
  ℕ, zero, suc, ◌+◌, ◌-◌, ◌*◌, ◌%◌, ◌^◌, ◌==◌, ◌&&◌, not, if◌then◌else◌, ltb, false, none, some,
  ◌∷◌, [], pos_part, get_or, take, drop,
}
use open_prlx.Wire.{be_to_host, wpacket_hdr_size, max_payload_size}
use open_prlx.Aggregator.{Aggregator, front_item, to_u64, update}

-- `uint32_t` counters wrap. A packet that is too long is counted as bad; one whose flag
-- WFB_PACKET_FEC_ONLY is set only pads its block.
unfoldable pub send_packet : Aggregator → ℕ → ℕ → Aggregator
send_packet a ring_idx fragment_idx =
    let item = a.rx_ring ring_idx in
    let fragment = get_or item.fragments fragment_idx [] in
    let payload = drop wpacket_hdr_size fragment in
    let flags = get_or fragment 0 0 in
    let packet_size = be_to_host (take 2 (drop 1 fragment)) in
    let packet_seq = (item.block_idx * to_u64 a.fec_k + fragment_idx) % 2 ^ 32 in
    let corrupted = ltb max_payload_size packet_size in
    record a {
      count_p_lost =
          if ltb ((a.seq + 1) % 2 ^ 32) packet_seq && ltb 0 a.seq
          then (a.count_p_lost + (packet_seq + 2 ^ 32 - a.seq - 1)) % 2 ^ 32
          else a.count_p_lost;
      seq = packet_seq;
      count_p_bad = if corrupted then (a.count_p_bad + 1) % 2 ^ 32 else a.count_p_bad;
      sent =
          record {
            block = item.block_idx;
            fragment = fragment_idx;
            payload =
                if not corrupted && (flags % 2 == 0) && a.dcb
                then some (payload, packet_size)
                else none;
          }
          ∷ a.sent;
    }

-- The loop `for (; f_idx < fec_k; f_idx++)` with `left` rounds to go.
unfoldable pub send_held : ℕ → Aggregator → ℕ → Aggregator
send_held zero a f_idx = a
send_held (suc left) a f_idx =
    send_held left
      (if get_or (front_item a).fragment_map f_idx false
        then send_packet a a.rx_ring_front f_idx
        else a)
      (f_idx + 1)

-- Sends the fragments of the oldest block that have arrived and were not sent.
unfoldable pub send_front : Aggregator → Aggregator
send_front a =
    let from = (front_item a).fragment_to_send_idx in send_held (pos_part a.fec_k - from) a from

-- The body of the two loops that send a block's fragments in turn.
unfoldable pub send_next : Aggregator → ℕ → Aggregator
send_next a ring_idx =
    let b = send_packet a ring_idx (a.rx_ring ring_idx).fragment_to_send_idx in
    record b {
      rx_ring = update b.rx_ring ring_idx (record (b.rx_ring ring_idx) {
        fragment_to_send_idx = ((b.rx_ring ring_idx).fragment_to_send_idx + 1) % 2 ^ 8;
      });
    }
