-- ===== src/Lib.antt =====
-- OpenPRLX: a daemon that receives the video of a wfb link with a USB radio and forwards it as RTP
-- to a port of the machine, under the control of a local HTTP server.
--
-- The parts and how they meet. The capture thread of `WFBReceiver` hands each 802.11 frame to
-- `RxFrame`, which says whether it is one of the link's, and the frame's payload to
-- `Aggregator::process_packet`. The aggregator opens the session and data packets, keeps the blocks
-- of fragments in a ring, recovers lost fragments with the code of the zfec library, and calls
-- `dcb`, that is `WFBReceiver::handleRtp`, on each packet in turn. `handleRtp` reads the sizes of the
-- packet by `RtpHeader`, finds out the codec, collects the parameter sets of the stream by
-- `sdpExtractParamSets`, and sends the packet. The threads share an `OpenPrlxContext`;
-- `ControlServer` reads it and stages actions in its mailbox, which the other threads take.
--
-- The files:
--   Prelude             numbers, tests, lists, integers, reads out of bounds, texts
--   Wire                src/wifi/WFBDefine.h: byte order, sizes and layouts
--   Aggregator          src/wifi/WFBProcessor.h: the state of the class `Aggregator`
--   Aggregator/Send     src/wifi/WFBProcessor.cpp: send_packet
--   Aggregator/Ring     rx_ring_push, get_block_ring_idx
--   Aggregator/Recover  apply_fec, and the end of process_packet
--   Aggregator/Packet   process_packet, init_fec, deinit_fec
--   Aggregator/Count, Planning, Restore  marks of fragments, the arrays for fec_decode, decoding
--   Aggregator/Valid    the invariant of the ring, and that every step keeps it
--   Aggregator/Order    the order of the calls of send_packet
--   Aggregator/Kept     what each elementary change keeps, the whole packet keeps
--   Aggregator/Identity, Adopted  what only a session packet changes
--   Aggregator/Whole    the sizes of the buffers
--   Aggregator/KeyFile  the constructor from a key file
--   Aggregator/Prompt   that a fragment which is next is sent at once
--   Aggregator/Toy      a small library and session for the runs on concrete inputs
--   RxFrame             src/wifi/RxFrame.h: IsValidWfbFrame, MatchesChannelID, PayloadSpan
--   Rtp                 src/wifi/Rtp.h: the sizes of a packet
--   Context             src/Context.h: the shared state and its mailbox
--   Sdp                 src/Sdp.cpp: sdpExtractParamSets, sdpParamsComplete
--   Sdp/Build           sdpBuild
--   WfbReceiver         src/wifi/WFBReceiver.cpp: handleRtp, sniffCodec
--   WfbReceiver/Frames  handle80211Frame, applyPendingControlActions, the rounds of the capture loop
--   WfbReceiver/Dongles GetDongleList, and how Start reads an adapter's name
--   ControlServer       src/ControlServer.h: the helpers, the handlers, and in Routes `handle`
--   ControlServer/Receive  recvRequest, over what the calls of recv give
--   ControlServer/Tune     what POST /tune makes of a printed body
--   ControlServer/Reply    respond, jsonEscape, the report of health
--   Supervisor          src/openprlx_main.cpp and src/wifi/WFBReceiver.cpp: the life of a session, as
--                       a step relation of the supervisor, the capture thread and the server, in which
--                       each write that another thread may see in between is a step
--   KeyVault            src/KeyVault.cpp
--   Startup             src/openprlx_main.cpp: the arguments, the context they give, --seal-key
-- A module Tests has runs on concrete inputs.
--
-- The state of an object is a record with the members' names, and a function that changes it takes
-- the record and returns the new one. The ring is a function from the indexes to the items, and a
-- buffer is the list of its bytes. Unsigned members wrap at their width. A failed `assert` and an array
-- entry that is read unset are `none`. So is a read past the packet, the frame or the payload that a
-- function is given: a byte is read by `get_elem?`, and the bytes that a call gets by `slice?`, which
-- both are `none` out of bounds. `get_or` reads the first byte of what is matched as not empty, and the
-- arrays of a ring's item; `payload_span` slices behind its own check of the size. The record
-- `Aggregator` has a log of the calls of `send_packet` beside the members.
--
-- Loops whose length is known run on that number of rounds. The loop of walkAggregation has the
-- payload's length as fuel: each round takes at least three bytes. The loop of queryValue has one
-- round more than the query has bytes: each round passes one `&`.
--
-- Parameters: libsodium's crypto_box_open_easy and crypto_aead_chacha20poly1305_decrypt; those that
-- the key vault calls, in the record Sodium of KeyVault; zfec's fec_decode; and what libusb lists. Of
-- a key vault the control server has what it asks it, the record Vault, which `vault_of` fills.
--
-- Not modelled: the drivers below 3rd and the copy of zfec (src/wifi/fec.c), which are libraries; the
-- sockets; the logs; and of WFBReceiver the calls on the adapter, of which SetMonitorChannel and the
-- results of ReadOnce are parameters.
pub mod Prelude
pub mod Wire
pub mod RxFrame
pub mod Rtp
pub mod Context
pub mod Sdp
pub mod WfbReceiver
pub mod ControlServer
pub mod Supervisor
pub mod KeyVault
pub mod Startup
pub mod Aggregator
