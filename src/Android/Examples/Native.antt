-- ===== src/Android/Examples/Native.antt =====
-- The theorems on the phone's set-up and its tasks at concrete inputs.
use wisp_shell.Prelude.{
  ℕ, ◌≡◌, refl, true, false, none, some, Option, List, [], ◌∷◌, ◌++◌, text, ok, arith,
}
use wisp_shell.Prelude.Broadcast.{message, lagged}
use wisp_shell.Protocol.Messages.{ClientToAgent, AgentToClient, attach, agent_auth_ok}
use wisp_shell.Protocol.Crypto.Toy.{toy}
use wisp_shell.Protocol.Signing.{DeviceKeypair, public_key_b64, private_key_b64, sign_b64}
use wisp_shell.Cloud.Rendezvous.{RendezvousInfo}
use wisp_shell.Agent.Streams.{Json, json, read_client_stream_frame}
use wisp_shell.Agent.State.{AgentState}
use wisp_shell.Agent.Handshake.{challenge, hello_message, daemon_transcript}
use wisp_shell.Agent.Handshake.Agreement.{IsReadable}
use wisp_shell.Agent.Serve.Task.{output_task}
use wisp_shell.Android.Terminal.{Terminal, on_output, call}
use wisp_shell.Android.Playback.{lagged-IsPlayed, read_loop}
use wisp_shell.Android.Bridge.{Bridge, started, find}
use wisp_shell.Android.Native.{Identity, generate_device_identity, connect_p2p_terminal}
use wisp_shell.Android.Native.Setup.{connect_p2p_terminal-attaches}
use wisp_shell.Android.Native.Paths.{PathInfo}
use wisp_shell.Android.Examples.{id, abc, names, standard, connection, terminal}

lagged-IsPlayed_example :
    (stream : List ℕ) × (output_task names standard
        (record connection { binary_output_enabled = true })
        id
        (message abc ∷ lagged 7 ∷ message abc ∷ [])
      ≡ (false, record connection { binary_output_enabled = true; written = stream }))
    × (read_loop names standard (λ n. n) 2 0 stream terminal
        ≡ read_loop names standard (λ n. n) 1 1 [] (call terminal (on_output abc ∷ [])))
lagged-IsPlayed_example =
    lagged-IsPlayed names standard (λ n. n) (record connection { binary_output_enabled = true }) id
      (abc ∷ []) 7 (message abc ∷ []) 1 0 terminal refl refl (omega arith, tt)

abbrev seen : List (Option PathInfo)
seen =
    none
    ∷ some (record { is_relay = true; is_ip = false; rtt = some 80 })
    ∷ some (record { is_relay = true; is_ip = false; rtt = some 80 })
    ∷ []

abbrev keys : DeviceKeypair
keys = record {
  signing_key =
      1 ∷ 2 ∷ 3 ∷ 4 ∷ 5 ∷ 6 ∷ 7 ∷ 8 ∷ 1 ∷ 2 ∷ 3 ∷ 4 ∷ 5 ∷ 6 ∷ 7 ∷ 8 ∷ 1 ∷ 2 ∷ 3 ∷ 4 ∷ 5 ∷ 6 ∷ 7 ∷ 8
      ∷ 1 ∷ 2 ∷ 3 ∷ 4 ∷ 5 ∷ 6 ∷ 7 ∷ 8 ∷ [];
}

abbrev identity : Identity
identity = record {
  device_id = keys.signing_key;
  public_key = public_key_b64 toy keys;
  private_key = private_key_b64 toy keys;
}

generated : generate_device_identity toy keys ≡ ok identity
unfolding generate_device_identity toy
generated = refl

abbrev daemon : AgentState
daemon = record {
  device_id = text "daemon";
  private_key = private_key_b64 toy keys;
  public_key = public_key_b64 toy keys;
  trusted_clients = [];
}

abbrev info : RendezvousInfo
info = record {
  daemon_device_id = text "daemon";
  daemon_public_key = public_key_b64 toy keys;
  status = text "online";
  iroh_node_addr = some (text "addr");
  agent_version = none;
  updated_at = none;
}

abbrev attaching : Json
attaching = record names {
  client_to_vec = λ m. 123 ∷ text "a}";
  client_from_slice = λ s. some (attach (text "work") 80 24);
}

attach-IsReadable : IsReadable attaching (attach (text "work") 80 24)
attach-IsReadable = record { line = text "a}"; braced = refl; plain = omega arith; back = refl }

abbrev hello : wisp_shell.Protocol.Messages.ClientHello
hello = hello_message toy info keys (text "phone") (text "b1") (text "n1")

abbrev answers : AgentToClient × AgentToClient
answers = (
  challenge daemon hello (text "n2"),
  agent_auth_ok (sign_b64 toy keys (daemon_transcript daemon hello (text "n2"))),
)

abbrev with_one : Bridge
with_one = record {
  next_handle = 2;
  terminals =
      (
        1,
        record terminal {
          session_id = none;
          last_pong_ms = 5;
          attached = false;
          written = 123 ∷ (text "a}" ++ 10 ∷ []);
        },
      )
      ∷ [];
}

connects :
    connect_p2p_terminal toy attaching started
      (some info)
      (private_key_b64 toy keys)
      (text "phone")
      (text "b1")
      (text "work")
      (text "n1")
      (some answers)
      true
      5
    ≡ ok (1, with_one)
unfolding connect_p2p_terminal toy private_key_b64 wisp_shell.Protocol.Signing.verify_b64 sign_b64
    wisp_shell.Protocol.Signing.transport_handshake_payload
connects = refl

connect_p2p_terminal-attaches_example :
    (find started.terminals 1 ≡ none)
    × (t : Terminal) × (find with_one.terminals 1 ≡ some t)
    × (t.attached ≡ false)
    × (read_client_stream_frame attaching (t.written ++ abc)
        ≡ ok (some (json (attach (text "work") 80 24), abc)))
connect_p2p_terminal-attaches_example =
    connect_p2p_terminal-attaches toy attaching started with_one (some info)
      (private_key_b64 toy keys) (text "phone") (text "b1") (text "work") (text "n1") (some answers)
      true 5 1 abc tt (omega arith) attach-IsReadable connects
