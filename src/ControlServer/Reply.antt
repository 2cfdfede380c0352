-- ===== src/ControlServer/Reply.antt =====
-- The texts of the responses of src/ControlServer.h: `respond`, `jsonEscape` and the report of
-- `health`.
pub mod Reads
pub mod Report
pub mod Fields
pub mod Heads
mod Tests
use open_prlx.Prelude.{
  ℕ, ◌==◌, ◌||◌, if◌then◌else◌, Bool, true, false, Option, none, some, List, [], ◌∷◌, ◌++◌, ℤ, pos,
  length, ascii, append_all, decimal, to_string,
}
use open_prlx.Wire.{Bytes}
use open_prlx.Context.{state_name, codec_name}
use open_prlx.ControlServer.{Health}

-- What `send` is given.
unfoldable pub respond : ℕ → Bytes → Bytes → Bytes → Bytes → Bytes
respond code reason body extra_headers content_type =
    append_all
      (ascii "HTTP/1.1 "
        ∷ decimal code
        ∷ ascii " "
        ∷ reason
        ∷ ascii "\r\n"
        ∷ ascii "Content-Type: "
        ∷ content_type
        ∷ ascii "\r\n"
        ∷ ascii "Connection: close\r\n"
        ∷ extra_headers
        ∷ ascii "Content-Length: "
        ∷ decimal (length body)
        ∷ ascii "\r\n\r\n"
        ∷ [])
      body

-- Quotes and backslashes get a backslash.
unfoldable pub json_escape : Bytes → Bytes
json_escape [] = []
json_escape (c ∷ s) =
    let rest = json_escape s in if (c == 34) || (c == 92) then 92 ∷ c ∷ rest else c ∷ rest

abbrev pub bool_text : Bool → Bytes
bool_text true = ascii "true"
bool_text false = ascii "false"

abbrev pub error_text : Option Bytes → Bytes
error_text none = ascii "}"
error_text (some e) =
    append_all (ascii ",\"lastError\":\"" ∷ json_escape e ∷ ascii "\"" ∷ []) (ascii "}")

unfoldable pub health_text : Health → Bytes
health_text h =
    append_all
      (ascii "{"
        ∷ ascii "\"status\":\"ok\","
        ∷ ascii "\"apiVersion\":\"1\","
        ∷ ascii "\"state\":\""
        ∷ state_name h.state
        ∷ ascii "\","
        ∷ ascii "\"streaming\":"
        ∷ bool_text h.streaming_now
        ∷ ascii ","
        ∷ ascii "\"captureAlive\":"
        ∷ bool_text h.capture_alive
        ∷ ascii ","
        ∷ ascii "\"packetsForwarded\":"
        ∷ decimal h.packets_forwarded
        ∷ ascii ","
        ∷ ascii "\"wfbFrames\":"
        ∷ decimal h.wfb_frames
        ∷ ascii ","
        ∷ ascii "\"wifiFrames\":"
        ∷ decimal h.wifi_frames
        ∷ ascii ","
        ∷ ascii "\"codec\":\""
        ∷ codec_name h.codec
        ∷ ascii "\","
        ∷ ascii "\"rtpPayloadType\":"
        ∷ to_string h.rtp_payload_type
        ∷ ascii ","
        ∷ ascii "\"ssrc\":"
        ∷ decimal h.ssrc
        ∷ ascii ","
        ∷ ascii "\"sdpReady\":"
        ∷ bool_text h.sdp_ready
        ∷ ascii ","
        ∷ ascii "\"paramSets\":"
        ∷ bool_text h.param_sets
        ∷ ascii ","
        ∷ ascii "\"pubkey\":\""
        ∷ h.pubkey
        ∷ ascii "\","
        ∷ ascii "\"port\":"
        ∷ to_string h.port
        ∷ [])
      (error_text h.last_error)
