-- ===== src/Agent/Handshake.antt =====
-- The handshake of the two sides: `handle_authenticated_stream` of
-- components/agent/src/transport_iroh.rs and `P2PTerminalClient::connect` of
-- crates/wispshell-core/src/client.rs. The nonces are what `random_b64` gives; the connection that
-- carries the bytes is iroh's. What the daemon sent before it failed is not kept.
pub mod Soundness
pub mod Agreement
use wisp_shell.Prelude.{
  ℕ, ◌&&◌, ◌||◌, not, Bool, Option, none, some, List, [], ◌∷◌, Str, str_eq, Result, ok, err, ok_or,
  ensure, ◌>>=◌, ◌>>◌, ◌==◌, if◌then◌else◌,
}
use wisp_shell.Protocol.Failure.{
  Failure, connection_closed, expected_hello, protocol_mismatch, untrusted_client, expected_auth,
  client_signature_invalid, no_node_address, expected_challenge, challenge_mismatch,
  expected_auth_ok, daemon_signature_invalid,
}
use wisp_shell.Protocol.Messages.{
  protocol_version, ClientHello, ClientToAgent, client_hello, client_auth, attach, input, resize,
  detach, ping, AgentChallenge, AgentToClient, agent_challenge, agent_auth_ok, session_attached,
  scrollback, output, session_exited, error, pong,
}
use wisp_shell.Protocol.Crypto.{Primitives}
use wisp_shell.Protocol.Signing.{
  DeviceKeypair, public_key_b64, from_private_key_b64, sign_b64, verify_b64,
  transport_handshake_payload,
}
use wisp_shell.Cloud.CodePairing.{or_false}
use wisp_shell.Cloud.Rendezvous.{RendezvousInfo}
use wisp_shell.Agent.State.{AgentState, is_trusted}
use wisp_shell.Agent.Streams.{
  Json, ClientStreamFrame, json, binary, short_binary, read_client_stream_frame,
}

-- What the daemon has when the stream goes on to the sessions.
pub record Accepted : Type 0 where
  pub client_device_id : Str
  pub sent : List AgentToClient
  pub rest : List ℕ

abbrev pub hello_of : ClientStreamFrame → Option ClientHello
hello_of (json (client_hello h)) = some h
hello_of _ = none

abbrev pub signature_of : ClientStreamFrame → Option Str
signature_of (json (client_auth signature)) = some signature
signature_of _ = none

-- The state that was read again, if it is still this device's; `latest` is none if reading failed.
unfoldable pub refreshed : AgentState → Option AgentState → AgentState
refreshed state none = state
refreshed state (some latest) =
    if str_eq latest.device_id state.device_id && str_eq latest.public_key state.public_key
    then latest
    else state

abbrev pub challenge : AgentState → ClientHello → Str → AgentToClient
challenge state hello daemon_nonce = agent_challenge (record {
  daemon_device_id = state.device_id;
  daemon_public_key = state.public_key;
  client_nonce = hello.nonce;
  daemon_nonce = daemon_nonce;
})

abbrev pub daemon_transcript : AgentState → ClientHello → Str → Str
daemon_transcript state hello daemon_nonce =
    transport_handshake_payload hello.protocol_version hello.client_device_id
      hello.client_public_key state.device_id state.public_key hello.binding_id hello.nonce
      daemon_nonce

-- The daemon's checks of the first frame: the hello and the state that goes on.
unfoldable pub check_hello :
    AgentState → Option AgentState → ClientStreamFrame → Result Failure (ClientHello × AgentState)
unfolding refreshed is_trusted
check_hello state latest frame = do
  hello ← ok_or (hello_of frame) expected_hello
  ensure
      (hello.protocol_version == protocol_version && str_eq hello.daemon_device_id state.device_id)
      protocol_mismatch
  let state' = refreshed state latest
  ensure (is_trusted state' hello.client_device_id hello.client_public_key) untrusted_client
  ok (hello, state')

module _ (c : Primitives) where
  -- The daemon's check of the second frame, and its own signature.
  unfoldable pub check_auth :
      AgentState → ClientHello → Str → ClientStreamFrame → Result Failure Str
  check_auth state hello daemon_nonce frame = do
    signature ← ok_or (signature_of frame) expected_auth
    let transcript = daemon_transcript state hello daemon_nonce
    ensure (or_false (verify_b64 c hello.client_public_key transcript signature))
        client_signature_invalid
    daemon_keys ← from_private_key_b64 c state.private_key
    ok (sign_b64 c daemon_keys transcript)

  unfoldable pub handle_authenticated_stream :
      Json → AgentState → Option AgentState → Str → List ℕ → Result Failure Accepted
  unfolding check_hello check_auth read_client_stream_frame
  handle_authenticated_stream j state latest daemon_nonce bytes = do
    first ← read_client_stream_frame j bytes
    (frame, bytes') ← ok_or first connection_closed
    (hello, state') ← check_hello state latest frame
    second ← read_client_stream_frame j bytes'
    (frame', rest) ← ok_or second connection_closed
    signature ← check_auth state' hello daemon_nonce frame'
    ok (record {
      client_device_id = hello.client_device_id;
      sent = challenge state' hello daemon_nonce ∷ agent_auth_ok signature ∷ [];
      rest = rest;
    })

  -- The client's first message.
  unfoldable pub hello_message : RendezvousInfo → DeviceKeypair → Str → Str → Str → ClientHello
  unfolding public_key_b64
  hello_message info client_keys client_device_id binding_id client_nonce = record {
    protocol_version = protocol_version;
    client_device_id = client_device_id;
    client_public_key = public_key_b64 c client_keys;
    daemon_device_id = info.daemon_device_id;
    binding_id = binding_id;
    nonce = client_nonce;
  }

  abbrev pub client_transcript : DeviceKeypair → Str → Str → Str → AgentChallenge → Str
  client_transcript client_keys client_device_id binding_id client_nonce answer =
      transport_handshake_payload protocol_version client_device_id (public_key_b64 c client_keys)
        answer.daemon_device_id answer.daemon_public_key binding_id client_nonce answer.daemon_nonce

  abbrev pub challenge_of : AgentToClient → Option AgentChallenge
  challenge_of (agent_challenge answer) = some answer
  challenge_of _ = none

  abbrev pub auth_ok_of : AgentToClient → Option Str
  auth_ok_of (agent_auth_ok signature) = some signature
  auth_ok_of _ = none

  -- The client's check of the challenge, and its second message with the text that it signs.
  unfoldable pub answer_challenge :
      RendezvousInfo
      → DeviceKeypair
      → Str
      → Str
      → Str
      → AgentToClient
      → Result Failure (Str × AgentChallenge × ClientToAgent)
  answer_challenge info client_keys client_device_id binding_id client_nonce message = do
    answer ← ok_or (challenge_of message) expected_challenge
    ensure
        (str_eq answer.daemon_device_id info.daemon_device_id
          && str_eq answer.daemon_public_key info.daemon_public_key
          && str_eq answer.client_nonce client_nonce)
        challenge_mismatch
    let transcript = client_transcript client_keys client_device_id binding_id client_nonce answer
    ok (transcript, answer, client_auth (sign_b64 c client_keys transcript))

  unfoldable pub check_auth_ok : AgentChallenge → Str → AgentToClient → Result Failure (Unit {0})
  check_auth_ok answer transcript message = do
    signature ← ok_or (auth_ok_of message) expected_auth_ok
    ensure (or_false (verify_b64 c answer.daemon_public_key transcript signature))
        daemon_signature_invalid

  -- What `connect` sends, when it is answered by these two messages and succeeds.
  unfoldable pub connect :
      RendezvousInfo
      → DeviceKeypair
      → Str
      → Str
      → Str
      → (first second : AgentToClient) → Result Failure (List ClientToAgent)
  unfolding hello_message answer_challenge check_auth_ok
  connect info client_keys client_device_id binding_id client_nonce first second = do
    address ← ok_or info.iroh_node_addr no_node_address
    (transcript, answer, auth) ←
        answer_challenge info client_keys client_device_id binding_id client_nonce first
    checked ← check_auth_ok answer transcript second
    ok (
        client_hello (hello_message info client_keys client_device_id binding_id client_nonce)
        ∷ auth
        ∷ [])
