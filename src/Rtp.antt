-- ===== src/Rtp.antt =====
-- src/wifi/Rtp.h: the fields and sizes that `RtpHeader` computes. The header is the buffer that it
-- points to, in the layout of a little-endian machine; a read past the buffer is `none`.
pub mod Bounds
mod Tests
use open_prlx.Prelude.{
  ℕ, ◌+◌, ◌-◌, ◌*◌, ◌/◌, ◌%◌, ◌==◌, if◌then◌else◌, Option, none, some, ℤ, sub_ℕ, get_elem?, ◌>>=◌,
  [], ◌∷◌,
}
use open_prlx.Wire.{Bytes, be_to_host}

-- The bit fields of the first two bytes.
unfoldable pub csrc_of : ℕ → ℕ
csrc_of byte = byte % 16

unfoldable pub ext_of : ℕ → ℕ
ext_of byte = byte / 16 % 2

unfoldable pub padding_of : ℕ → ℕ
padding_of byte = byte / 32 % 2

unfoldable pub pt_of : ℕ → ℕ
pt_of byte = byte % 128

-- AV_RB16
unfoldable pub av_rb16 : Bytes → ℕ → Option ℕ
av_rb16 buf i = do
  high ← get_elem? buf i
  low ← get_elem? buf (i + 1)
  some (high % 256 * 256 + low % 256)

unfoldable pub get_csrc_size : Bytes → Option ℕ
get_csrc_size buf = do byte ← get_elem? buf 0; some (csrc_of byte * 4)

unfoldable pub get_ext_size : Bytes → Option ℕ
get_ext_size buf = do
  byte ← get_elem? buf 0
  if ext_of byte == 0 then some 0 else (do
    csrc_size ← get_csrc_size buf
    words ← av_rb16 buf (12 + csrc_size + 2)
    some (words * 4))

unfoldable pub get_payload_offset : Bytes → Option ℕ
get_payload_offset buf = do
  byte ← get_elem? buf 0
  csrc_size ← get_csrc_size buf
  if ext_of byte == 0
      then some csrc_size
      else (do ext_size ← get_ext_size buf; some (csrc_size + (4 + ext_size)))

unfoldable pub get_padding_size : Bytes → ℕ → Option ℕ
get_padding_size buf rtp_size = do
  byte ← get_elem? buf 0
  if padding_of byte == 0 then some 0 else get_elem? buf (rtp_size - 1)

-- The `size_t` arithmetic wraps, and the result as `ssize_t` is the difference again, as the sizes
-- are far below 2^63.
unfoldable pub get_payload_size : Bytes → ℕ → Option ℤ
get_payload_size buf rtp_size = do
  offset ← get_payload_offset buf
  padding ← get_padding_size buf rtp_size
  some (sub_ℕ rtp_size (offset + padding + 12))
