-- ===== src/Android/Native.antt =====
-- The calls from Java that make no use of a terminal, and the set-up of a terminal
-- (crates/wispshell-core/src/android_jni.rs). The JVM's strings are texts; a panic is a value.
pub mod Setup
pub mod Paths
use wisp_shell.Prelude.{
  ℕ, suc, Bool, true, false, Option, none, some, List, [], ◌∷◌, ◌++◌, Str, text, Result, ok, err,
  ok_or, ◌>>=◌, ◌>>◌, if◌then◌else◌,
}
use wisp_shell.Protocol.Failure.{Failure, native_panic, jni_failed, invalid_json, connection_closed}
use wisp_shell.Protocol.Messages.{AgentToClient, ClientToAgent, attach}
use wisp_shell.Protocol.Crypto.{Primitives}
use wisp_shell.Protocol.Signing.{
  DeviceKeypair, device_id, public_key_b64, private_key_b64, from_private_key_b64,
}
use wisp_shell.Cloud.Rendezvous.{RendezvousInfo}
use wisp_shell.Agent.Streams.{Json}
use wisp_shell.Agent.Handshake.{connect}
use wisp_shell.Android.Terminal.{Terminal, write_message}
use wisp_shell.Android.Bridge.{Bridge, open_terminal}

-- How a closure that Java called ends.
pub data Ran (A : Type 0) : Type 0 where
  returned : Result Failure A → Ran A
  panicked : Ran A

unfoldable pub catch_jni : {A : Type 0} → Ran A → Result Failure A
catch_jni (returned r) = r
catch_jni panicked = err native_panic

-- What Java gets: a text, or none for the null that stands where the JVM makes no string.
-- `error_json` is serde_json's object of the error's message, `new_string` the JVM's.
unfoldable pub to_jstring :
    (error_json : Failure → Str) (new_string : Str → Option Str) → Result Failure Str → Option Str
to_jstring error_json new_string (ok value) = new_string value
to_jstring error_json new_string (err e) = new_string (error_json e)

-- Whether the context is marked as initialised, and how often it was handed to the native side.
pub record Context : Type 0 where
  pub marked : Bool
  pub handed_over : ℕ

-- `vm` tells whether the JVM and the reference to the context are there.
unfoldable pub initialize_android_context :
    Context → (vm : Bool) → Result Failure (Unit {0}) × Context
initialize_android_context s vm =
    if s.marked
    then (ok tt, s)
    else if vm
    then (ok tt, record { marked = true; handed_over = suc s.handed_over })
    else (err jni_failed, record s { marked = true })

-- The JSON object of an identity.
pub record Identity : Type 0 where
  pub device_id : Str
  pub public_key : Str
  pub private_key : Str

module _ (c : Primitives) where
  -- `keys` is what `DeviceKeypair::generate` gives.
  unfoldable pub generate_device_identity : DeviceKeypair → Result Failure Identity
  unfolding device_id public_key_b64 private_key_b64
  generate_device_identity keys = do
    id ← device_id c keys
    ok (record {
      device_id = id;
      public_key = public_key_b64 c keys;
      private_key = private_key_b64 c keys;
    })

  unfoldable pub device_identity_from_private_key : Str → Result Failure Identity
  unfolding from_private_key_b64 generate_device_identity
  device_identity_from_private_key private_key = do
    keys ← from_private_key_b64 c private_key
    generate_device_identity keys

  -- A terminal whose handshake is done, before its tasks run.
  abbrev pub fresh_terminal : ℕ → Terminal
  fresh_terminal now = record {
    session_id = none;
    last_pong_ms = now;
    attached = false;
    calls = [];
    commands = [];
    receiving = true;
    peer_open = true;
    written = [];
    nonce_counter = 0;
  }

  -- The attachment that is written before the tasks start.
  abbrev pub with_attach : Result Failure (Unit {0}) × Terminal → Result Failure Terminal
  with_attach (ok _, t) = ok t
  with_attach (err e, t) = err e

  -- `rendezvous` is the JSON that was parsed, `answers` the daemon's two messages, none when the
  -- transport failed or ten seconds passed; `peer_open` whether the attachment could be written.
  -- What is written to the terminal is what follows the handshake.
  unfoldable pub connect_p2p_terminal :
      Json
      → Bridge
      → (rendezvous : Option RendezvousInfo)
      → (private_key client_device_id binding_id session_name client_nonce : Str)
      → (answers : Option (AgentToClient × AgentToClient)) → (peer_open : Bool) → (now : ℕ)
      → Result Failure (ℕ × Bridge)
  unfolding from_private_key_b64 connect open_terminal
  connect_p2p_terminal j b rendezvous private_key client_device_id binding_id session_name
        client_nonce answers peer_open now =
      do
        info ← ok_or rendezvous invalid_json
        client_keys ← from_private_key_b64 c private_key
        (first, second) ← ok_or answers connection_closed
        sent ← connect c info client_keys client_device_id binding_id client_nonce first second
        t ← with_attach (
            write_message j (record (fresh_terminal now) { peer_open = peer_open })
              (attach session_name 80 24))
        ok (open_terminal b t)
