-- ===== src/Agent/Examples/Transport.antt =====
-- The theorems on the handshake and the streams at concrete inputs.
use wisp_shell.Prelude.{
  ℕ, ◌≡◌, ◌≢◌, refl, sym, ap, ◌∙◌, ◌+◌, ◌-◌, ◌≤◌, Bool, true, false, Option, none, some, List, [],
  ◌∷◌, ◌++◌, Str, text, str_eq, Result, ok, err, arith, length, drop, if◌then◌else◌,
}
use wisp_shell.Protocol.Messages.{ClientToAgent, client_hello, ClientHello, agent_auth_ok}
use wisp_shell.Protocol.Frames.{encode_short_binary_frame, encode_binary_frame}
use wisp_shell.Protocol.Frames.Header.{frame_bytes}
use wisp_shell.Protocol.Crypto.Toy.{toy, toy-IsLawful}
use wisp_shell.Protocol.Signing.{DeviceKeypair, public_key_b64, private_key_b64, sign_b64}
use wisp_shell.Protocol.Signing.Keys.{restore-private_key}
use wisp_shell.Cloud.Rendezvous.{RendezvousInfo}
use wisp_shell.Agent.Streams.{Json}
use wisp_shell.Agent.State.{AgentState, is_trusted}
use wisp_shell.Agent.Handshake.{
  handle_authenticated_stream, connect, hello_message, challenge, daemon_transcript, refreshed,
}
use wisp_shell.Agent.Handshake.Soundness.{
  IsAuthenticated, handle_authenticated_stream-IsAuthenticated,
}
use wisp_shell.Agent.Handshake.Agreement.{IsReadable, auth_message, honest_handshake}
use wisp_shell.Agent.Examples.{abc, phone, id}

abbrev pub daemon_keys : DeviceKeypair
daemon_keys = record { signing_key = first_bytes }
  where
    first_bytes : List ℕ
    first_bytes =
        1 ∷ 2 ∷ 3 ∷ 4 ∷ 5 ∷ 6 ∷ 7 ∷ 8 ∷ 1 ∷ 2 ∷ 3 ∷ 4 ∷ 5 ∷ 6 ∷ 7 ∷ 8 ∷ 1 ∷ 2 ∷ 3 ∷ 4 ∷ 5 ∷ 6 ∷ 7
        ∷ 8 ∷ 1 ∷ 2 ∷ 3 ∷ 4 ∷ 5 ∷ 6 ∷ 7 ∷ 8 ∷ []

abbrev pub client_keys : DeviceKeypair
client_keys = record { signing_key = 9 ∷ 9 ∷ [] }

abbrev pub daemon_state : AgentState
daemon_state = record {
  device_id = text "daemon";
  private_key = private_key_b64 toy daemon_keys;
  public_key = public_key_b64 toy daemon_keys;
  trusted_clients =
      record {
        client_device_id = phone;
        client_public_key = public_key_b64 toy client_keys;
        client_name = text "my phone";
      }
      ∷ [];
}

abbrev pub info : RendezvousInfo
info = record {
  daemon_device_id = text "daemon";
  daemon_public_key = public_key_b64 toy daemon_keys;
  status = text "online";
  iroh_node_addr = some (text "addr");
  agent_version = none;
  updated_at = none;
}

abbrev pub hello : ClientHello
hello = hello_message toy info client_keys phone (text "b1") (text "n1")

abbrev pub auth : ClientToAgent
auth = auth_message toy (refreshed daemon_state none) hello client_keys (text "n2")

-- JSON in which the two messages of this run have names.
abbrev pub named_line : ClientToAgent → List ℕ
named_line (client_hello h) = 123 ∷ text "h}"
named_line _ = 123 ∷ text "a}"

abbrev named_message : List ℕ → Option ClientToAgent
named_message line = if str_eq line (123 ∷ text "h}") then some (client_hello hello) else some auth

abbrev pub names : Json
names = record {
  client_to_vec = named_line;
  client_from_slice = named_message;
  agent_to_vec = λ m. [];
  agent_from_slice = λ s. none;
  is_utf8 = λ s. true;
}

pub hello-IsReadable : IsReadable names (client_hello hello)
unfolding str_eq
hello-IsReadable = record { line = text "h}"; braced = refl; plain = omega arith; back = refl }

pub auth-IsReadable : IsReadable names auth
unfolding str_eq
auth-IsReadable = record { line = text "a}"; braced = refl; plain = omega arith; back = refl }

short_frame : encode_short_binary_frame abc ≡ ok (31 ∷ 3 ∷ abc)
unfolding encode_short_binary_frame wisp_shell.Protocol.Frames.length_bytes
    wisp_shell.Prelude.Bits.lt_wf native.Mathlib.Decide.dec_lt
short_frame = refl

long_frame : encode_binary_frame 1 id abc ≡ ok (frame_bytes 1 id abc)
unfolding encode_binary_frame
long_frame = refl

still_same : refreshed daemon_state none ≡ daemon_state
unfolding refreshed
still_same = refl

pub trusts : is_trusted daemon_state phone (public_key_b64 toy client_keys) ≡ true
unfolding is_trusted str_eq public_key_b64 toy
trusts = refl

honest_handshake_example :
    (handle_authenticated_stream toy names daemon_state none
        (text "n2")
        (named_line (client_hello hello) ++ 10 ∷ (named_line auth ++ 10 ∷ abc))
      ≡ ok (record {
        client_device_id = phone;
        sent =
            challenge daemon_state hello (text "n2")
            ∷ agent_auth_ok
                (sign_b64 toy daemon_keys (daemon_transcript daemon_state hello (text "n2")))
            ∷ [];
        rest = abc;
      }))
    × (connect toy info client_keys phone
          (text "b1")
          (text "n1")
          (challenge daemon_state hello (text "n2"))
          (agent_auth_ok
            (sign_b64 toy daemon_keys (daemon_transcript daemon_state hello (text "n2"))))
        ≡ ok (client_hello hello ∷ auth ∷ []))
unfolding refreshed
honest_handshake_example =
    honest_handshake toy-IsLawful names info daemon_state none client_keys daemon_keys phone
      (text "b1") (text "n1") (text "n2") (text "addr") abc refl refl refl refl
      (restore-private_key toy-IsLawful daemon_keys refl) trusts hello-IsReadable auth-IsReadable

handle_authenticated_stream-IsAuthenticated_example :
    IsAuthenticated toy daemon_state none (text "n2") phone
unfolding refreshed
handle_authenticated_stream-IsAuthenticated_example =
    handle_authenticated_stream-IsAuthenticated toy names daemon_state none (text "n2")
      (named_line (client_hello hello) ++ 10 ∷ (named_line auth ++ 10 ∷ abc))
      (record {
        client_device_id = phone;
        sent =
            challenge daemon_state hello (text "n2")
            ∷ agent_auth_ok
                (sign_b64 toy daemon_keys (daemon_transcript daemon_state hello (text "n2")))
            ∷ [];
        rest = abc;
      })
      (honest_handshake toy-IsLawful names info daemon_state none client_keys daemon_keys phone
        (text "b1") (text "n1") (text "n2") (text "addr") abc refl refl refl refl
        (restore-private_key toy-IsLawful daemon_keys refl) trusts hello-IsReadable
        auth-IsReadable).0
