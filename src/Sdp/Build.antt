-- ===== src/Sdp/Build.antt =====
-- `sdpBuild` of src/Sdp.cpp: the text of the description of the stream. `bin2base64` is libsodium's
-- sodium_bin2base64 in the original variant.
pub mod Lines
use open_prlx.Prelude.{
  ℕ, if◌then◌else◌, Bool, true, false, [], ◌∷◌, ◌++◌, ℤ, pos, negsuc, append_all, ascii, to_string,
}
use open_prlx.Wire.{Bytes}
use open_prlx.Context.{Codec, auto, h264, h265, ParamSets}
use open_prlx.Sdp.{sdp_params_complete}

abbrev pub encoding : Codec → Bytes
encoding auto = ascii "H264"
encoding h264 = ascii "H264"
encoding h265 = ascii "H265"

abbrev pub payload_type_or : ℤ → ℤ
payload_type_or (pos n) = pos n
payload_type_or (negsuc n) = pos 96

module _ (bin2base64 : Bytes → Bytes) where
  unfoldable pub b64 : Bytes → Bytes
  b64 [] = []
  b64 (c ∷ raw) = bin2base64 (c ∷ raw)

  abbrev pub h264_text : Bytes → ParamSets → Bytes
  h264_text p sets =
      append_all
        (ascii "a=fmtp:"
          ∷ p
          ∷ ascii " packetization-mode=1; sprop-parameter-sets="
          ∷ b64 sets.sps
          ∷ ascii ","
          ∷ b64 sets.pps
          ∷ [])
        (ascii "\r\n")

  abbrev pub h265_text : Bytes → ParamSets → Bytes
  h265_text p sets =
      append_all
        (ascii "a=fmtp:"
          ∷ p
          ∷ ascii " sprop-vps="
          ∷ b64 sets.vps
          ∷ ascii "; sprop-sps="
          ∷ b64 sets.sps
          ∷ ascii "; sprop-pps="
          ∷ b64 sets.pps
          ∷ [])
        (ascii "\r\n")

  -- The `if` and the `else` for a codec whose sets are complete.
  abbrev pub sets_text : Codec → Bytes → ParamSets → Bytes
  sets_text h264 p sets = h264_text p sets
  sets_text auto p sets = h265_text p sets
  sets_text h265 p sets = h265_text p sets

  unfoldable pub sdp_build : Codec → ℤ → ℤ → ParamSets → Bytes
  sdp_build codec payload_type port sets =
      let p = to_string (payload_type_or payload_type) in
      append_all
        (ascii "v=0\r\n"
          ∷ ascii "o=- 0 0 IN IP4 127.0.0.1\r\n"
          ∷ ascii "s=OpenPRLX\r\n"
          ∷ ascii "c=IN IP4 127.0.0.1\r\n"
          ∷ ascii "t=0 0\r\n"
          ∷ ascii "m=video "
          ∷ to_string port
          ∷ ascii " RTP/AVP "
          ∷ p
          ∷ ascii "\r\n"
          ∷ ascii "a=rtpmap:"
          ∷ p
          ∷ ascii " "
          ∷ encoding codec
          ∷ ascii "/90000\r\n"
          ∷ [])
        (if sdp_params_complete codec sets then sets_text codec p sets else [])
