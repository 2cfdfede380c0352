-- ===== src/Rtp/Bounds.antt =====
-- The sizes of src/wifi/Rtp.h stay within the packet, where the payload's size is positive.
use open_prlx.Prelude.{
  ℕ, ◌+◌, ◌-◌, ◌*◌, ◌%◌, ◌≤◌, ◌<◌, ◌≡◌, ◌⊎◌, dec_lt, refl, ◌==◌, some, ℤ, sub_ℕ, pos_part, length,
  get_or, get_elem?-some, inl, inr, Bool-cases, arith,
}
use open_prlx.Wire.{Bytes}
use open_prlx.Rtp.{
  csrc_of, ext_of, padding_of, av_rb16, get_csrc_size, get_ext_size, get_payload_offset,
  get_padding_size, get_payload_size,
}

-- The sizes are computed with no read past the buffer, and a payload of positive size lies between
-- the header and the padding, within the packet.
pub record Sizes (buf : Bytes) (size : ℕ) (plen : ℤ) : Type 0 where
  pub offset : ℕ
  pub padding : ℕ
  pub offset_read : get_payload_offset buf ≡ some offset
  pub padding_read : get_padding_size buf size ≡ some padding
  pub inside : 0 < pos_part plen → 12 + offset + pos_part plen + padding ≡ size

sub_ℕ-pos_part : (a b : ℕ) → 0 < pos_part (sub_ℕ a b) → b + pos_part (sub_ℕ a b) ≡ a
sub_ℕ-pos_part a b h = ground (arith, h)

module _ (buf : Bytes) (room : 76 ≤ length buf) where
  csrc_size_read : get_csrc_size buf ≡ some (csrc_of (get_or buf 0 0) * 4)
  unfolding get_csrc_size
  csrc_size_read = rw (get_elem?-some buf 0 0 (omega (arith, room))) refl

  av_rb16-some : (i : ℕ) → i + 1 < length buf → (v : ℕ) × (av_rb16 buf i ≡ some v)
  unfolding av_rb16
  av_rb16-some i h = (
    get_or buf i 0 % 256 * 256 + get_or buf (i + 1) 0 % 256,
    rw (get_elem?-some buf i 0 (omega (arith, h)), get_elem?-some buf (i + 1) 0 h) refl,
  )

  csrc_in : 12 + csrc_of (get_or buf 0 0) * 4 + 2 + 1 < length buf
  unfolding csrc_of
  csrc_in = omega (arith, room)

  ext_size_read : (v : ℕ) × (get_ext_size buf ≡ some v)
  unfolding get_ext_size
  ext_size_read =
      let first = get_elem?-some buf 0 0 (omega (arith, room)) in
      let csrc = csrc_of (get_or buf 0 0) * 4 in
      let (w, e) = av_rb16-some (12 + csrc + 2) csrc_in in
      elim (Bool-cases (ext_of (get_or buf 0 0) == 0)) [
        | inl no_ext ↦ (0, rw (first, no_ext) refl)
        | inr ext ↦ (w * 4, rw (first, ext, csrc_size_read, e) refl)
      ]

  offset_some : (v : ℕ) × (get_payload_offset buf ≡ some v)
  unfolding get_payload_offset
  offset_some =
      let first = get_elem?-some buf 0 0 (omega (arith, room)) in
      let csrc = csrc_of (get_or buf 0 0) * 4 in
      let (w, e) = ext_size_read in
      elim (Bool-cases (ext_of (get_or buf 0 0) == 0)) [
        | inl no_ext ↦ (csrc, rw (first, csrc_size_read, no_ext) refl)
        | inr ext ↦ (csrc + (4 + w), rw (first, csrc_size_read, ext, e) refl)
      ]

  padding_some :
      (size : ℕ) → 0 < size → size ≤ length buf → (v : ℕ) × (get_padding_size buf size ≡ some v)
  unfolding get_padding_size
  padding_some size some_size fits =
      let first = get_elem?-some buf 0 0 (omega (arith, room)) in
      let last = get_elem?-some buf (size - 1) 0 (omega (arith, some_size, fits)) in
      elim (Bool-cases (padding_of (get_or buf 0 0) == 0)) [
        | inl no_padding ↦ (0, rw (first, no_padding) refl)
        | inr padding ↦ (get_or buf (size - 1) 0, rw (first, padding) last)
      ]

  pub get_payload_size-Sizes :
      (size : ℕ)
      → 12 ≤ size
      → size ≤ length buf
      → (plen : ℤ) × (get_payload_size buf size ≡ some plen) × Sizes buf size plen
  unfolding get_payload_size
  get_payload_size-Sizes size long fits =
      let (o, p) = offset_some in
      let (d, q) = padding_some size (omega (arith, long)) fits in
      (
        sub_ℕ size (o + d + 12),
        rw (p, q) refl,
        record {
          offset = o;
          padding = d;
          offset_read = p;
          padding_read = q;
          inside = λ h. omega (arith, sub_ℕ-pos_part size (o + d + 12) h);
        },
      )

-- For a packet of at least 12 bytes in a buffer that holds it and has at least 76 bytes,
-- `getPayloadOffset`, `getPaddingSize` and `getPayloadSize` read nothing past the buffer; and the
-- payload's size is not positive, or the 12 bytes of header, the offset, the payload and the padding
-- make up the packet exactly.
pub get_payload_size-layout :
    (buf : Bytes) (size : ℕ)
    → 76 ≤ length buf
    → 12 ≤ size
    → size ≤ length buf
    → (plen : ℤ) × (offset : ℕ) × (padding : ℕ) × (get_payload_size buf size ≡ some plen)
      × (get_payload_offset buf ≡ some offset)
      × (get_padding_size buf size ≡ some padding)
      × ((pos_part plen ≡ 0) ⊎ (12 + offset + pos_part plen + padding ≡ size))
get_payload_size-layout buf size room long fits =
    let (plen, e, s) = get_payload_size-Sizes buf room size long fits in
    (
      plen,
      s.offset,
      s.padding,
      e,
      s.offset_read,
      s.padding_read,
      elim (dec_lt 0 (pos_part plen)) [
        | yes some_bytes ↦ inr (s.inside some_bytes)
        | no none_left ↦ inl (omega (arith, none_left))
      ],
    )
