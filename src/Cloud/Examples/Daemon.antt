-- ===== src/Cloud/Examples/Daemon.antt =====
-- The theorems on the daemon against the cloud at concrete inputs.
use wisp_shell.Prelude.{
  ℕ, ◌≡◌, ◌≢◌, refl, str_eq, true, false, Option, none, some, List, [], ◌∷◌, Str, text, Result, ok,
  err,
}
use wisp_shell.Protocol.Messages.{BindingCertificate}
use wisp_shell.Protocol.Crypto.Toy.{toy}
use wisp_shell.Protocol.Signing.{DeviceKeypair, public_key_b64, private_key_b64}
use wisp_shell.Cloud.App.{AppState}
use wisp_shell.Cloud.Rendezvous.{RendezvousInfo, rendezvous}
use wisp_shell.Cloud.Examples.{codec, client, daemon, serde, code, started}
use wisp_shell.Agent.State.{AgentState}
use wisp_shell.Agent.Pairing.{approve_pairing_code, publish_presence}
use wisp_shell.Agent.Pairing.EndToEnd.{
  Clock, cloud_handlers, IsPaired, rendezvous-approve_pairing_code, rendezvous-publish_presence,
}

abbrev clock : Clock
clock = record { resolved = 3; checked = 3; used = 4; created = 6; seen = 7; now = 5 }

-- The 32 bytes of the key of the cloud's examples.
abbrev keys : DeviceKeypair
keys = record {
  signing_key =
      7 ∷ 8 ∷ 9 ∷ 0 ∷ 0 ∷ 0 ∷ 0 ∷ 0 ∷ 0 ∷ 0 ∷ 0 ∷ 0 ∷ 0 ∷ 0 ∷ 0 ∷ 0 ∷ 0 ∷ 0 ∷ 0 ∷ 0 ∷ 0 ∷ 0 ∷ 0 ∷ 0
      ∷ 0 ∷ 0 ∷ 0 ∷ 0 ∷ 0 ∷ 0 ∷ 0 ∷ 0 ∷ [];
}

abbrev state : AgentState
state = record {
  device_id = daemon;
  private_key = private_key_b64 toy keys;
  public_key = public_key_b64 toy keys;
  trusted_clients = [];
}

abbrev saved : AgentState
saved = record state {
  trusted_clients =
      record {
        client_device_id = client;
        client_public_key = text "key";
        client_name = text "phone";
      }
      ∷ [];
}

abbrev to_text : BindingCertificate → Str
to_text cert = text "{}"

abbrev paired : AppState
paired =
    (approve_pairing_code toy (cloud_handlers toy codec serde clock) to_text state (text "host")
      code (text "b1") 4 started).1

pairs :
    approve_pairing_code toy
      (cloud_handlers toy codec serde clock)
      to_text
      state
      (text "host")
      code
      (text "b1")
      4
      started
    ≡ (ok saved, paired)
unfolding approve_pairing_code wisp_shell.Protocol.PairingCode.normalize_pairing_code
    wisp_shell.Protocol.PairingCode.compact wisp_shell.Protocol.PairingCode.encode_pairing_code
    wisp_shell.Protocol.PairingCode.format_code wisp_shell.Protocol.PairingCode.code_chars
    wisp_shell.Protocol.PairingCode.alphabet_at wisp_shell.Protocol.PairingCode.u64_from_be_bytes
    wisp_shell.Prelude.all wisp_shell.Protocol.PairingCode.contains
    wisp_shell.Cloud.CodePairing.resolve_code wisp_shell.Protocol.PairingHash.pairing_code_hash
    wisp_shell.Prelude.HashMap.get wisp_shell.Cloud.Server.step
    wisp_shell.Cloud.CodePairing.start_code wisp_shell.Cloud.App.persist_or_log
    wisp_shell.Prelude.HashMap.insert str_eq wisp_shell.Cloud.Examples.code_hash
    wisp_shell.Protocol.Signing.from_private_key_b64 private_key_b64
    wisp_shell.Cloud.CodePairing.approve_code wisp_shell.Cloud.CodePairing.check_approval
    wisp_shell.Cloud.CodePairing.cert_matches wisp_shell.Cloud.Examples.daemon_key
    wisp_shell.Protocol.Signing.verify_b64 wisp_shell.Protocol.Signing.sign_b64
pairs = refl

rendezvous-approve_pairing_code_example :
    IsPaired toy codec serde clock state saved code (text "b1") started paired
rendezvous-approve_pairing_code_example =
    rendezvous-approve_pairing_code toy codec serde clock to_text state saved (text "host") code
      (text "b1") 4 started paired pairs

abbrev published : AppState
published =
    (publish_presence (cloud_handlers toy codec serde clock) (text "host") (text "1.0") state
      (text "addr") paired).1

publishes :
    publish_presence
      (cloud_handlers toy codec serde clock)
      (text "host")
      (text "1.0")
      state
      (text "addr")
      paired
    ≡ (true, published)
unfolding publish_presence wisp_shell.Cloud.Devices.register wisp_shell.Cloud.Devices.update str_eq
publishes = refl

abbrev info : RendezvousInfo
info = record {
  daemon_device_id = daemon;
  daemon_public_key = public_key_b64 toy keys;
  status = text "online";
  iroh_node_addr = some (text "addr");
  agent_version = some (text "1.0");
  updated_at = some 5;
}

answered : rendezvous published daemon client (text "b1") ≡ ok info
unfolding rendezvous wisp_shell.Prelude.HashMap.get publish_presence
    wisp_shell.Cloud.Devices.register str_eq wisp_shell.Cloud.Devices.update
    wisp_shell.Cloud.App.persist_or_log approve_pairing_code
    wisp_shell.Protocol.PairingCode.normalize_pairing_code wisp_shell.Protocol.PairingCode.compact
    wisp_shell.Protocol.PairingCode.encode_pairing_code wisp_shell.Protocol.PairingCode.format_code
    wisp_shell.Protocol.PairingCode.code_chars wisp_shell.Protocol.PairingCode.alphabet_at
    wisp_shell.Protocol.PairingCode.u64_from_be_bytes wisp_shell.Prelude.all
    wisp_shell.Protocol.PairingCode.contains wisp_shell.Cloud.CodePairing.resolve_code
    wisp_shell.Protocol.PairingHash.pairing_code_hash wisp_shell.Cloud.Server.step
    wisp_shell.Cloud.CodePairing.start_code wisp_shell.Prelude.HashMap.insert
    wisp_shell.Cloud.Examples.code_hash wisp_shell.Protocol.Signing.from_private_key_b64
    private_key_b64 wisp_shell.Cloud.CodePairing.approve_code
    wisp_shell.Cloud.CodePairing.check_approval wisp_shell.Cloud.CodePairing.cert_matches
    wisp_shell.Cloud.Examples.daemon_key wisp_shell.Protocol.Signing.verify_b64
    wisp_shell.Protocol.Signing.sign_b64 wisp_shell.Cloud.CodePairing.record_approval
    wisp_shell.Prelude.HashMap.map_values
answered = refl

rendezvous-publish_presence_example :
    (info.status ≡ text "online")
    × (info.iroh_node_addr ≡ some (text "addr"))
    × (info.daemon_public_key ≡ state.public_key)
rendezvous-publish_presence_example =
    rendezvous-publish_presence toy codec serde clock (text "host") (text "1.0") state (text "addr")
      paired published client (text "b1") info publishes answered
