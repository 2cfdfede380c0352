-- ===== src/Wire.antt =====
-- src/wifi/WFBDefine.h: byte order, the ring's index arithmetic, and the sizes and layouts of the
-- packets. A buffer is the list of its bytes, and `buf + n` is `drop n buf`. The byte order
-- functions are those of the Windows build, the only one there is.
use open_prlx.Prelude.{
  ℕ, suc, ◌+◌, ◌-◌, ◌*◌, ◌/◌, ◌%◌, ◌^◌, ◌<◌, ◌≡◌, ◌==◌, ◌&&◌, arith, Bool, true, false, List, [],
  ◌∷◌, ℤ, pos, negsuc, take, drop, get_or,
}

abbrev pub Bytes : Type 0
Bytes = List ℕ

unfoldable pub be_from : ℕ → Bytes → ℕ
be_from acc [] = acc
be_from acc (b ∷ bs) = be_from (acc * 256 + b) bs

-- A big-endian field of a packed struct, after be16toh, be32toh or be64toh.
unfoldable pub be_to_host : Bytes → ℕ
unfolding be_from
be_to_host bytes = be_from 0 bytes

-- memcmp on arrays of the same size, and `==` on strings.
unfoldable pub same_bytes : Bytes → Bytes → Bool
same_bytes [] [] = true
same_bytes (x ∷ xs) (y ∷ ys) = (x == y) && same_bytes xs ys
same_bytes xs ys = false

-- `modN`: C's remainder of a negative `x` is minus the remainder of `-x`.
unfoldable pub mod_n : ℤ → ℕ → ℕ
mod_n (pos x) base = (base + x % base) % base
mod_n (negsuc x) base = (base - suc x % base) % base

abbrev pub rx_ring_size : ℕ
rx_ring_size = 40

-- sizeof of the packed structs and of the header arrays.
abbrev pub radiotap_header_size : ℕ
radiotap_header_size = 13

abbrev pub ieee80211_header_size : ℕ
ieee80211_header_size = 24

abbrev pub wblock_hdr_size : ℕ
wblock_hdr_size = 9

abbrev pub wpacket_hdr_size : ℕ
wpacket_hdr_size = 3

abbrev pub wsession_hdr_size : ℕ
wsession_hdr_size = 25

abbrev pub wsession_data_size : ℕ
wsession_data_size = 47

-- crypto_box_MACBYTES and crypto_aead_chacha20poly1305_ABYTES of libsodium.
abbrev pub box_mac_bytes : ℕ
box_mac_bytes = 16

abbrev pub aead_a_bytes : ℕ
aead_a_bytes = 16

abbrev pub max_packet_size : ℕ
max_packet_size = 1510

abbrev pub max_fec_payload : ℕ
max_fec_payload =
    max_packet_size - radiotap_header_size - ieee80211_header_size - wblock_hdr_size - aead_a_bytes

abbrev pub max_payload_size : ℕ
max_payload_size =
    max_packet_size - radiotap_header_size - ieee80211_header_size - wblock_hdr_size - aead_a_bytes
    - wpacket_hdr_size

abbrev pub max_forwarder_packet_size : ℕ
max_forwarder_packet_size = max_packet_size - radiotap_header_size - ieee80211_header_size

abbrev pub max_block_idx : ℕ
max_block_idx = 2 ^ 55 - 1

abbrev pub wfb_packet_data : ℕ
wfb_packet_data = 1

abbrev pub wfb_packet_key : ℕ
wfb_packet_key = 2

abbrev pub wfb_fec_vdm_rs : ℕ
wfb_fec_vdm_rs = 1

-- `wsession_data_t`, the multi-byte fields in host order.
pub record SessionData : Type 0 where
  pub epoch : ℕ
  pub channel_id : ℕ
  pub fec_type : ℕ
  pub k : ℕ
  pub n : ℕ
  pub session_key : Bytes

unfoldable pub read_session_data : Bytes → SessionData
read_session_data b = record {
  epoch = be_to_host (take 8 b);
  channel_id = be_to_host (take 4 (drop 8 b));
  fec_type = get_or b 12 0 % 2 ^ 8;
  k = get_or b 13 0 % 2 ^ 8;
  n = get_or b 14 0 % 2 ^ 8;
  session_key = take 32 (drop 15 b);
}

-- `htobe32`, on a machine that stores the low byte first.
unfoldable pub htobe32 : ℕ → ℕ
htobe32 x =
    x % 2 ^ 8 * 2 ^ 24
    + x / 2 ^ 8 % 2 ^ 8 * 2 ^ 16
    + x / 2 ^ 16 % 2 ^ 8 * 2 ^ 8
    + x / 2 ^ 24 % 2 ^ 8

-- The four bytes of a `uint32_t` in memory.
abbrev pub u32_bytes : ℕ → Bytes
u32_bytes x = x % 2 ^ 8 ∷ x / 2 ^ 8 % 2 ^ 8 ∷ x / 2 ^ 16 % 2 ^ 8 ∷ x / 2 ^ 24 % 2 ^ 8 ∷ []

-- A `uint8_t` that is made from an `int`.
abbrev pub to_u8 : ℤ → ℕ
to_u8 (pos n) = n % 2 ^ 8
to_u8 (negsuc n) = 2 ^ 8 - 1 - n % 2 ^ 8

-- What `htobe32` stores is read back big-endian.
pub be_to_host-htobe32 : (x : ℕ) → x < 2 ^ 32 → be_to_host (u32_bytes (htobe32 x)) ≡ x
unfolding be_to_host be_from htobe32
be_to_host-htobe32 x h = omega arith
