-- ===== src/Sdp/Build/Lines.antt =====
-- The lines of the description that `sdpBuild` of src/Sdp.cpp gives.
use open_prlx.Prelude.{
  append_assoc, append_nil, print_lines, IsLine, lacks, lacks-IsLine, to_string-IsLine,
  append_all-append, IsLine-append_all, if_both, ◌≡◌, refl, ap, sym, ◌∙◌, if◌then◌else◌, if_false,
  Bool, true, false, Bool-cases, inl, inr, Option, none, some, List, [], ◌∷◌, ◌++◌, All, All-append,
  ℤ, pos, negsuc, if_true, ascii, append_all, to_string, arith, ◌==◌,
}
use open_prlx.Wire.{Bytes}
use open_prlx.Context.{Codec, auto, h264, h265, ParamSets}
use open_prlx.Sdp.{sdp_params_complete}
use open_prlx.Sdp.Build.{encoding, payload_type_or, b64, sets_text, sdp_build}

abbrev pub add_line : Bytes → Option (List Bytes) → Option (List Bytes)
add_line line none = none
add_line line (some ls) = some (line ∷ ls)

-- `cr` is whether the last byte was a carriage return, which a line feed has to follow; `line` is what
-- has been read of the line.
abbrev pub read_lines : Bytes → Bool → Bytes → Option (List Bytes)
read_lines [] true line = none
read_lines [] false [] = some []
read_lines [] false (c ∷ line) = none
read_lines (c ∷ s) true line =
    let rest = read_lines s false [] in if c == 10 then add_line line rest else none
read_lines (c ∷ s) false line =
    let ended = read_lines s true line in
    let more = read_lines s false (line ++ (c ∷ [])) in if c == 13 then ended else more

read_lines-line :
    (l rest acc : Bytes)
    → IsLine l
    → read_lines (l ++ (13 ∷ 10 ∷ rest)) false acc ≡ add_line (acc ++ l) (read_lines rest false [])
read_lines-line [] rest acc h =
    ap (λ l. add_line l (read_lines rest false [])) (sym (append_nil acc))
read_lines-line (c ∷ l) rest acc h =
    if_false {b = c == 13} (read_lines (l ++ (13 ∷ 10 ∷ rest)) true acc) _ (ground (arith, h.0))
    ∙ read_lines-line l rest (acc ++ (c ∷ [])) h.1
    ∙ ap (λ l. add_line l (read_lines rest false [])) (append_assoc acc (c ∷ []) l)

read_lines-print_lines :
    (ls : List Bytes) → All IsLine ls → read_lines (print_lines ls) false [] ≡ some ls
read_lines-print_lines [] h = refl
read_lines-print_lines (l ∷ ls) h =
    read_lines-line l (print_lines ls) [] h.0 ∙ ap (add_line l) (read_lines-print_lines ls h.1)

-- The name of a codec, and the payload type, in the lines.
abbrev pub codec_word : Codec → Bytes
codec_word auto = ascii "H264"
codec_word h264 = ascii "H264"
codec_word h265 = ascii "H265"

abbrev pub type_word : ℤ → Bytes
type_word (pos n) = to_string (pos n)
type_word (negsuc n) = ascii "96"

encoding-word : (codec : Codec) → encoding codec ≡ codec_word codec
encoding-word auto = refl
encoding-word h264 = refl
encoding-word h265 = refl

to_string-word : (z : ℤ) → to_string (payload_type_or z) ≡ type_word z
unfolding to_string open_prlx.Prelude.decimal
to_string-word (pos n) = refl
to_string-word (negsuc n) = refl

-- The lines of the medium and of its encoding.
abbrev pub media_line : ℤ → Bytes → Bytes
media_line port p = append_all (ascii "m=video " ∷ to_string port ∷ ascii " RTP/AVP " ∷ []) p

abbrev pub map_line : Codec → Bytes → Bytes
map_line codec p =
    append_all (ascii "a=rtpmap:" ∷ p ∷ ascii " " ∷ codec_word codec ∷ []) (ascii "/90000")

-- The line if the set is there.
abbrev pub when_some : Bytes → List Bytes → List Bytes
when_some [] ls = []
when_some (c ∷ raw) ls = ls

when_some-IsLine : (raw : Bytes) (ls : List Bytes) → All IsLine ls → All IsLine (when_some raw ls)
when_some-IsLine [] ls h = tt
when_some-IsLine (c ∷ raw) ls h = h

-- The lines that there are before the parameter sets, and the line of these.
abbrev pub head_lines : Codec → ℤ → Bytes → List Bytes
head_lines codec port p =
    ascii "v=0"
    ∷ ascii "o=- 0 0 IN IP4 127.0.0.1"
    ∷ ascii "s=OpenPRLX"
    ∷ ascii "c=IN IP4 127.0.0.1"
    ∷ ascii "t=0 0"
    ∷ media_line port p
    ∷ map_line codec p
    ∷ []

module _ (bin2base64 : Bytes → Bytes) where
  abbrev pub h264_parts : Bytes → ParamSets → List Bytes
  h264_parts p sets =
      ascii "a=fmtp:"
      ∷ p
      ∷ ascii " packetization-mode=1; sprop-parameter-sets="
      ∷ bin2base64 sets.sps
      ∷ ascii ","
      ∷ []

  abbrev pub h265_parts : Bytes → ParamSets → List Bytes
  h265_parts p sets =
      ascii "a=fmtp:"
      ∷ p
      ∷ ascii " sprop-vps="
      ∷ bin2base64 sets.vps
      ∷ ascii "; sprop-sps="
      ∷ bin2base64 sets.sps
      ∷ ascii "; sprop-pps="
      ∷ []

  abbrev pub h264_line : Bytes → ParamSets → Bytes
  h264_line p sets = append_all (h264_parts p sets) (bin2base64 sets.pps)

  abbrev pub h265_line : Bytes → ParamSets → Bytes
  h265_line p sets = append_all (h265_parts p sets) (bin2base64 sets.pps)

  abbrev pub sets_lines : Codec → Bytes → ParamSets → List Bytes
  sets_lines h264 p sets = when_some sets.sps (when_some sets.pps (h264_line p sets ∷ []))
  sets_lines h265 p sets =
      when_some sets.vps (when_some sets.sps (when_some sets.pps (h265_line p sets ∷ [])))
  sets_lines auto p sets = []

  abbrev chosen_text : Codec → Bytes → ParamSets → Bytes
  chosen_text codec p sets =
      if sdp_params_complete codec sets then sets_text bin2base64 codec p sets else []

  -- With the sets of one codec or of none.
  sets_text-lines :
      (codec : Codec) (p vps sps pps : Bytes)
      → chosen_text codec p (record { vps = vps; sps = sps; pps = pps })
        ≡ print_lines (sets_lines codec p (record { vps = vps; sps = sps; pps = pps }))
  unfolding sdp_params_complete b64
  sets_text-lines auto p vps sps pps = refl
  sets_text-lines h264 p vps [] pps = refl
  sets_text-lines h264 p vps (c ∷ sps) [] =
      if_false {b = sdp_params_complete h264 (record { vps = vps; sps = c ∷ sps; pps = [] })}
        (sets_text bin2base64 h264 p (record { vps = vps; sps = c ∷ sps; pps = [] })) []
        (ground arith)
  sets_text-lines h264 p vps (c ∷ sps) (d ∷ pps) =
      if_true {b = sdp_params_complete h264 (record { vps = vps; sps = c ∷ sps; pps = d ∷ pps })}
        (sets_text bin2base64 h264 p (record { vps = vps; sps = c ∷ sps; pps = d ∷ pps })) []
        (ground arith)
      ∙ sym (
          append_all-append (h264_parts p (record { vps = vps; sps = c ∷ sps; pps = d ∷ pps }))
            (bin2base64 (d ∷ pps)) (13 ∷ 10 ∷ []))
  sets_text-lines h265 p [] sps pps = refl
  sets_text-lines h265 p (b ∷ vps) [] pps =
      if_false {b = sdp_params_complete h265 (record { vps = b ∷ vps; sps = []; pps = pps })}
        (sets_text bin2base64 h265 p (record { vps = b ∷ vps; sps = []; pps = pps })) []
        (ground arith)
  sets_text-lines h265 p (b ∷ vps) (c ∷ sps) [] =
      if_false {b = sdp_params_complete h265 (record { vps = b ∷ vps; sps = c ∷ sps; pps = [] })}
        (sets_text bin2base64 h265 p (record { vps = b ∷ vps; sps = c ∷ sps; pps = [] })) []
        (ground arith)
  sets_text-lines h265 p (b ∷ vps) (c ∷ sps) (d ∷ pps) =
      if_true
        {b = sdp_params_complete h265 (record { vps = b ∷ vps; sps = c ∷ sps; pps = d ∷ pps })}
        (sets_text bin2base64 h265 p (record { vps = b ∷ vps; sps = c ∷ sps; pps = d ∷ pps })) []
        (ground arith)
      ∙ sym (
          append_all-append (h265_parts p (record { vps = b ∷ vps; sps = c ∷ sps; pps = d ∷ pps }))
            (bin2base64 (d ∷ pps)) (13 ∷ 10 ∷ []))

  -- The description as lines: with the line of the parameter sets exactly if the codec is known and
  -- each of its sets is there.
  abbrev pub all_lines : Codec → ℤ → ℤ → ParamSets → List Bytes
  all_lines codec payload_type port sets =
      head_lines codec port (type_word payload_type)
      ++ sets_lines codec (type_word payload_type) sets

  sdp_build-lines :
      (codec : Codec) (payload_type port : ℤ) (sets : ParamSets)
      → sdp_build bin2base64 codec payload_type port sets
        ≡ print_lines (all_lines codec payload_type port sets)
  unfolding sdp_build
  sdp_build-lines codec payload_type port sets =
      ap (λ q. sdp_text q (encoding codec) (chosen_text codec q sets)) (to_string-word payload_type)
      ∙ ap (λ w. sdp_text p w (chosen_text codec p sets)) (encoding-word codec)
      ∙ ap (sdp_text p (codec_word codec)) (sets_text-lines codec p sets.vps sets.sps sets.pps)
      ∙ after_head (sets_lines codec p sets)
    where
      p : Bytes
      p = type_word payload_type

      media : List Bytes
      media = ascii "m=video " ∷ to_string port ∷ ascii " RTP/AVP " ∷ []

      start : List Bytes
      start =
          ascii "v=0\r\n"
          ∷ ascii "o=- 0 0 IN IP4 127.0.0.1\r\n"
          ∷ ascii "s=OpenPRLX\r\n"
          ∷ ascii "c=IN IP4 127.0.0.1\r\n"
          ∷ ascii "t=0 0\r\n"
          ∷ []

      parts : Bytes → Bytes → List Bytes
      parts q w = ascii "a=rtpmap:" ∷ q ∷ ascii " " ∷ w ∷ []

      sdp_text : Bytes → Bytes → Bytes → Bytes
      sdp_text q w t =
          append_all start
            (append_all media (q ++ (13 ∷ 10 ∷ append_all (parts q w) (ascii "/90000\r\n" ++ t))))

      after_head :
          (ls : List Bytes)
          → sdp_text p (codec_word codec) (print_lines ls)
            ≡ print_lines (head_lines codec port p ++ ls)
      after_head ls =
          let w = 13 ∷ 10 ∷ print_lines ls in
          let two = append_all-append (parts p (codec_word codec)) (ascii "/90000") w in
          let one = append_all-append media p (13 ∷ 10 ∷ (map_line codec p ++ w)) in
          ap (append_all start) (sym (one ∙ ap (λ m. append_all media (p ++ (13 ∷ 10 ∷ m))) two))

  -- Every text that base64 gives is without carriage returns.
  abbrev pub IsBase64 : Type 0
  IsBase64 = (raw : Bytes) → IsLine (bin2base64 raw)

  sets_lines-IsLine :
      (codec : Codec) (p : Bytes) (sets : ParamSets)
      → IsBase64
      → IsLine p
      → All IsLine (sets_lines codec p sets)
  unfolding lacks
  sets_lines-IsLine auto p sets good h = tt
  sets_lines-IsLine h264 p sets good h = when_some-IsLine sets.sps _ (
      when_some-IsLine sets.pps (h264_line p sets ∷ []) (
        IsLine-append_all (h264_parts p sets) (bin2base64 sets.pps)
            (
              lacks-IsLine (ascii "a=fmtp:") refl,
              (
                h,
                (
                  lacks-IsLine (ascii " packetization-mode=1; sprop-parameter-sets=") refl,
                  (good sets.sps, (lacks-IsLine (ascii ",") refl, tt)),
                ),
              ),
            )
            (good sets.pps),
        tt,
      ))
  sets_lines-IsLine h265 p sets good h = when_some-IsLine sets.vps _ (
      when_some-IsLine sets.sps _ (
        when_some-IsLine sets.pps (h265_line p sets ∷ []) (
          IsLine-append_all (h265_parts p sets) (bin2base64 sets.pps)
              (
                lacks-IsLine (ascii "a=fmtp:") refl,
                (
                  h,
                  (
                    lacks-IsLine (ascii " sprop-vps=") refl,
                    (
                      good sets.vps,
                      (
                        lacks-IsLine (ascii "; sprop-sps=") refl,
                        (good sets.sps, (lacks-IsLine (ascii "; sprop-pps=") refl, tt)),
                      ),
                    ),
                  ),
                ),
              )
              (good sets.pps),
          tt,
        )))

  codec_word-IsLine : (codec : Codec) → IsLine (codec_word codec)
  unfolding lacks
  codec_word-IsLine auto = lacks-IsLine (ascii "H264") refl
  codec_word-IsLine h264 = lacks-IsLine (ascii "H264") refl
  codec_word-IsLine h265 = lacks-IsLine (ascii "H265") refl

  head_lines-IsLine :
      (codec : Codec) (port : ℤ) (p : Bytes) → IsLine p → All IsLine (head_lines codec port p)
  unfolding lacks
  head_lines-IsLine codec port p h = (
    lacks-IsLine (ascii "v=0") refl,
    (
      lacks-IsLine (ascii "o=- 0 0 IN IP4 127.0.0.1") refl,
      (
        lacks-IsLine (ascii "s=OpenPRLX") refl,
        (
          lacks-IsLine (ascii "c=IN IP4 127.0.0.1") refl,
          (
            lacks-IsLine (ascii "t=0 0") refl,
            (
              IsLine-append_all (ascii "m=video " ∷ to_string port ∷ ascii " RTP/AVP " ∷ []) p
                  (
                    lacks-IsLine (ascii "m=video ") refl,
                    (to_string-IsLine port, (lacks-IsLine (ascii " RTP/AVP ") refl, tt)),
                  )
                  h,
              (
                IsLine-append_all (ascii "a=rtpmap:" ∷ p ∷ ascii " " ∷ codec_word codec ∷ [])
                    (ascii "/90000")
                    (
                      lacks-IsLine (ascii "a=rtpmap:") refl,
                      (h, (lacks-IsLine (ascii " ") refl, (codec_word-IsLine codec, tt))),
                    )
                    (lacks-IsLine (ascii "/90000") refl),
                tt,
              ),
            ),
          ),
        ),
      ),
    ),
  )

  type_word-IsLine : (payload_type : ℤ) → IsLine (type_word payload_type)
  unfolding lacks
  type_word-IsLine (pos n) = to_string-IsLine (pos n)
  type_word-IsLine (negsuc n) = lacks-IsLine (ascii "96") refl

  -- The text that `sdpBuild` gives is read back as its lines: seven, with the port, the payload type,
  -- or 96 for a negative one, and the codec, H265 or else H264; and one more, with the parameter sets
  -- in base64, exactly if the codec is one of the two and each of its sets is there. This supposes of
  -- sodium_bin2base64 that it gives no carriage return.
  pub sdp_build-read_lines :
      (codec : Codec) (payload_type port : ℤ) (sets : ParamSets)
      → IsBase64
      → read_lines (sdp_build bin2base64 codec payload_type port sets) false []
        ≡ some (all_lines codec payload_type port sets)
  sdp_build-read_lines codec payload_type port sets good =
      let p = type_word payload_type in
      let h = type_word-IsLine payload_type in
      ap (λ t. read_lines t false []) (sdp_build-lines codec payload_type port sets)
      ∙ read_lines-print_lines (all_lines codec payload_type port sets) (
          All-append IsLine (head_lines codec port p) (sets_lines codec p sets)
            (head_lines-IsLine codec port p h) (sets_lines-IsLine codec p sets good h))
