-- ===== src/Cloud/Examples/Access.antt =====
-- The theorems on the rendezvous, revocation and signed requests at concrete inputs.
use wisp_shell.Prelude.{
  All, ◌≡◌, ◌≢◌, refl, sym, ap, ◌∙◌, Bool, true, false, Option, none, some, List, [], ◌∷◌, ◌++◌,
  Str, text, str_eq, Result, ok, err, arith, ℕ,
}
use wisp_shell.Prelude.HashMap.{HashMap, get}
use wisp_shell.Protocol.Crypto.Toy.{toy}
use wisp_shell.Protocol.PairingCode.{encode_pairing_code}
use wisp_shell.Protocol.PairingHash.{pairing_code_hash}
use wisp_shell.Protocol.Signing.{DeviceKeypair, sign_b64}
use wisp_shell.Cloud.Db.{Db, empty, Device}
use wisp_shell.Cloud.App.{AppState}
use wisp_shell.Cloud.CodePairing.{
  StartCodePairingRequest, ApproveCodePairingRequest, start_code, approve_code, resolve_code,
  code_binding,
}
use wisp_shell.Cloud.Bindings.{revoke}
use wisp_shell.Cloud.Server.{binding_revoke, step}
use wisp_shell.Prelude.{any}
use wisp_shell.Cloud.Rendezvous.{RendezvousInfo, rendezvous}
use wisp_shell.Cloud.Rendezvous.Admission.{IsBound}
use wisp_shell.Protocol.Crypto.{device_id_from_public_key}
use wisp_shell.Protocol.Signing.{rest_signature_payload}
use wisp_shell.Cloud.Examples.{
  codec, client, daemon, daemon_keys, daemon_key, serde, code_hash, request, session, approved,
}

abbrev revoked : AppState
revoked = step toy codec serde approved (binding_revoke (text "b1") 6)

abbrev host : Device
host = record {
  device_id = daemon;
  kind = text "daemon";
  display_name = text "host";
  public_key = daemon_key;
  created_at = 5;
  last_seen_at = some 5;
}

revokes :
    revoke codec approved (text "b1") 6
    ≡ ok (record (code_binding request session 5) { revoked_at = some 6 }, revoked)
unfolding approve_code step revoke get wisp_shell.Cloud.CodePairing.check_approval pairing_code_hash
    wisp_shell.Protocol.PairingCode.normalize_pairing_code wisp_shell.Protocol.PairingCode.compact
    encode_pairing_code wisp_shell.Protocol.PairingCode.format_code
    wisp_shell.Protocol.PairingCode.code_chars wisp_shell.Protocol.PairingCode.alphabet_at
    wisp_shell.Protocol.PairingCode.u64_from_be_bytes wisp_shell.Prelude.all
    wisp_shell.Protocol.PairingCode.contains wisp_shell.Cloud.CodePairing.usable_session start_code
    wisp_shell.Cloud.App.persist_or_log wisp_shell.Prelude.HashMap.insert str_eq code_hash
    wisp_shell.Cloud.CodePairing.cert_matches daemon_key wisp_shell.Protocol.Signing.verify_b64
    sign_b64 wisp_shell.Cloud.CodePairing.record_approval wisp_shell.Prelude.HashMap.map_values
revokes = refl

known_host : get approved.inner.devices daemon ≡ some host
unfolding approve_code step get wisp_shell.Cloud.CodePairing.check_approval pairing_code_hash
    wisp_shell.Protocol.PairingCode.normalize_pairing_code wisp_shell.Protocol.PairingCode.compact
    encode_pairing_code wisp_shell.Protocol.PairingCode.format_code
    wisp_shell.Protocol.PairingCode.code_chars wisp_shell.Protocol.PairingCode.alphabet_at
    wisp_shell.Protocol.PairingCode.u64_from_be_bytes wisp_shell.Prelude.all
    wisp_shell.Protocol.PairingCode.contains wisp_shell.Cloud.CodePairing.usable_session start_code
    wisp_shell.Cloud.App.persist_or_log wisp_shell.Prelude.HashMap.insert str_eq code_hash
    wisp_shell.Cloud.CodePairing.cert_matches daemon_key wisp_shell.Protocol.Signing.verify_b64
    sign_b64 wisp_shell.Cloud.CodePairing.record_approval
known_host = refl

bound : IsBound approved daemon client (text "b1")
unfolding approve_code step get wisp_shell.Cloud.CodePairing.check_approval pairing_code_hash
    wisp_shell.Protocol.PairingCode.normalize_pairing_code wisp_shell.Protocol.PairingCode.compact
    encode_pairing_code wisp_shell.Protocol.PairingCode.format_code
    wisp_shell.Protocol.PairingCode.code_chars wisp_shell.Protocol.PairingCode.alphabet_at
    wisp_shell.Protocol.PairingCode.u64_from_be_bytes wisp_shell.Prelude.all
    wisp_shell.Protocol.PairingCode.contains wisp_shell.Cloud.CodePairing.usable_session start_code
    wisp_shell.Cloud.App.persist_or_log wisp_shell.Prelude.HashMap.insert str_eq code_hash
    wisp_shell.Cloud.CodePairing.cert_matches daemon_key wisp_shell.Protocol.Signing.verify_b64
    sign_b64 wisp_shell.Cloud.CodePairing.record_approval wisp_shell.Prelude.HashMap.map_values
bound = record {
  binding = code_binding request session 5;
  found = refl;
  of_daemon = refl;
  of_client = refl;
  active = refl;
}

abbrev info : RendezvousInfo
info = record {
  daemon_device_id = daemon;
  daemon_public_key = daemon_key;
  status = text "offline";
  iroh_node_addr = none;
  agent_version = none;
  updated_at = none;
}

answered : rendezvous approved daemon client (text "b1") ≡ ok info
unfolding approve_code step rendezvous get wisp_shell.Cloud.CodePairing.check_approval
    pairing_code_hash wisp_shell.Protocol.PairingCode.normalize_pairing_code
    wisp_shell.Protocol.PairingCode.compact encode_pairing_code
    wisp_shell.Protocol.PairingCode.format_code wisp_shell.Protocol.PairingCode.code_chars
    wisp_shell.Protocol.PairingCode.alphabet_at wisp_shell.Protocol.PairingCode.u64_from_be_bytes
    wisp_shell.Prelude.all wisp_shell.Protocol.PairingCode.contains
    wisp_shell.Cloud.CodePairing.usable_session start_code wisp_shell.Cloud.App.persist_or_log
    wisp_shell.Prelude.HashMap.insert str_eq code_hash wisp_shell.Cloud.CodePairing.cert_matches
    daemon_key wisp_shell.Protocol.Signing.verify_b64 sign_b64
    wisp_shell.Cloud.CodePairing.record_approval wisp_shell.Prelude.HashMap.map_values
answered = refl

host_id : Str
unfolding toy daemon_key
host_id = id_of (device_id_from_public_key toy daemon_key)
  where
    id_of : {E : Type 0} → Result E Str → Str
    id_of (ok id) = id
    id_of (err e) = []

abbrev devices : Db
devices = record empty { devices = (host_id, host) ∷ [] }

request_signature : Str
unfolding toy
request_signature =
    sign_b64 toy daemon_keys (rest_signature_payload toy (text "get") (text "/v1") (4 ∷ []) [])
