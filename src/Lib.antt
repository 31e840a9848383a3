-- ===== src/Lib.antt =====
-- WispShell: a terminal on one's own computer, reached from a phone. A daemon on the computer runs
-- the shells (components/agent), a client library is part of the phone's app
-- (crates/wispshell-core), both speak one protocol (crates/wispshell-protocol), and a registry in
-- the cloud pairs the two and tells the client where the daemon is (components/cloud).
--
-- The parts and their files:
--
-- Prelude: lists, byte strings, results, bits, hash maps and what a broadcast channel answers. A
--   `HashMap` is an association list in which each key stands once; a string is the list of its
--   UTF-8 bytes.
-- Protocol: crates/wispshell-protocol/src. Messages and Frames are messages.rs, PairingCode and
--   PairingHash are pairing_code.rs, Crypto is crypto.rs, Signing is signing.rs, ErrorCode has the
--   constants of lib.rs, and Failure the places where a function fails.
-- Cloud: components/cloud/src. Db, Store and App are db.rs: the data, the SQLite rows and the state
--   that the handlers share. Devices is devices.rs and presence.rs; Pairing, CodePairing and
--   Bindings are pairing.rs; Rendezvous and AuthDevice are the files of these names, and Events is
--   ws.rs. Server is the whole: the requests of routes.rs that change the state, as `step`, one
--   after the other, for each handler makes its changes under the lock; Server.Concurrent has the
--   handlers' changes and their saves in any order. Server.Change sums up what a step may do to the
--   data; the invariants of Server.Keyed, Server.OneActive, Server.SingleUse and Server.Durable are
--   proved from it. Server.Registry is what the cloud promises of its bindings, a function from ids
--   to the pairs that they bind, and Server.Refinement that the handlers implement it.
-- Agent: components/agent/src. Scrollback and Session are session.rs and the part of pty.rs that
--   makes a session and takes in its output, Streams is the reading and writing of frames in
--   transport_stream.rs, Serve its loop over them and its output tasks, State is state.rs with its
--   file, Commands the processes that change the file beside the daemon, and Handshake is the
--   handshake of transport_iroh.rs with the client's side, `connect` of
--   crates/wispshell-core/src/client.rs. Serve.Stream puts handshake and loop together, with the
--   streams of transport_local.rs. Pairing is pairing.rs, the presence of transport_iroh.rs and
--   `devices revoke` of main.rs, over the interface `CloudClient` of cloud_client.rs, which
--   Pairing.EndToEnd fills with the handlers of Cloud. Config is config.rs and the command line of
--   main.rs.
-- Android: crates/wispshell-core/src/android_jni.rs. Frames reads what the daemon writes, Terminal
--   has what the tasks of an open terminal share and the body of each task's loop, and Bridge the
--   table of handles with the calls from Java, Native the other calls and the set-up of a terminal,
--   and Heartbeat the task that pings. EndToEnd and Playback put the phone and the daemon together.
-- Client: Link is pairing.rs of crates/wispshell-core/src, with the link that pairing.rs of
--   components/agent/src makes; Terminal is terminal.rs and the lines of client.rs.
--
-- How code becomes definitions: a handler is a function from the state to an answer, which is a
-- value with the next state, or a rejection; no handler changes the state and then rejects, so a
-- rejection carries none. The clock, random values and new UUIDs are arguments, one for each
-- reading, in the order of the readings. Numbers are the native natural numbers; where the code
-- narrows one (`as u16`, `as u32`) the remainder is written out, and no other arithmetic comes near
-- a width's end: lengths are below 2 ^ 25, and a total of a scrollback is below the memory's size.
-- The loops of the frame's length run on well-founded recursion or over the four bytes that a
-- length has at most. The loops over a stream's frames have fuel: the daemon's gets one more than
-- the stream has bytes, and each round takes a byte at least; the phone's is stated with the rounds
-- that it makes. Every other loop is over a list. A daemon's stream runs beside others: before each
-- frame an arbitrary function changes the sessions, and any output is sent on. A transport that no
-- longer takes bytes makes each write fail. Where the steps of two threads or processes come in any
-- order, they are a step relation: Agent.Session.Exchange has the reader thread of a session beside
-- an attachment, and Agent.Commands the commands that read the daemon's file, hold a copy, empty
-- the file and write it.
--
-- Parameters stand for the crates: Protocol.Crypto.Primitives (base64, sha2, hmac, ed25519-dalek),
-- Cloud.Store.Rows.Codec (chrono's RFC 3339, serde_json), Cloud.Pairing.Serde and
-- Agent.Streams.Json (serde_json), Agent.Session.Pty (portable_pty), Agent.Serve.Standard (base64),
-- Client.Link.Crates (url, chrono, urlencoding), Agent.State.File.StateJson (serde_json) and
-- Agent.State.File.Access (what the file system grants). What a theorem needs of them is a
-- hypothesis (`IsLawful`, `IsReadable`), which the Examples modules meet with concrete functions.
-- That signatures cannot be forged is a claim on ed25519, which is not made here: the theorems say
-- which key a signature was verified with, and over which text.
--
-- Not modelled: sockets, HTTP, tokio's scheduler, the iroh endpoint, the SQL text, the environment
-- and the files but the daemon's state, HTML pages, logging, the picture of the QR code, and the
-- conversions of the Java interface.
pub mod Prelude
pub mod Protocol
pub mod Cloud
pub mod Agent
pub mod Android
pub mod Client
