-- ===== src/Cloud/Examples.antt =====
-- The cloud's theorems at concrete inputs, and runs of its handlers.
mod Access
mod Daemon
mod Events
mod Concurrent
use wisp_shell.Cloud.Server.Change.{renewed_hash}
use wisp_shell.Prelude.{
  All, ◌≡◌, ◌≢◌, refl, ap, ◌∙◌, Bool, true, false, Option, none, some, List, [], ◌∷◌, ◌++◌, Str,
  text, str_eq, Result, ok, err, arith, ℕ,
}
use wisp_shell.Prelude.HashMap.{HashMap, get}
use wisp_shell.Protocol.ErrorCode.{pairing_used, device_revoked}
use wisp_shell.Protocol.Messages.{BindingCertificate}
use wisp_shell.Protocol.Crypto.{sha256_hex}
use wisp_shell.Protocol.Crypto.Toy.{toy}
use wisp_shell.Protocol.PairingCode.{encode_pairing_code}
use wisp_shell.Protocol.PairingHash.{pairing_code_hash}
use wisp_shell.Protocol.Signing.{DeviceKeypair, public_key_b64, sign_b64}
use wisp_shell.Cloud.Db.{Time, Db, Device, Binding, CodePairingSession}
use wisp_shell.Cloud.Store.Rows.{Codec}
use wisp_shell.Cloud.App.{AppState}
use wisp_shell.Cloud.Http.{rejection, conflict, forbidden}
use wisp_shell.Cloud.Pairing.{Serde}
use wisp_shell.Cloud.CodePairing.{
  StartCodePairingRequest, ApproveCodePairingRequest, start_code, approve_code, resolve_code,
  code_binding,
}
use wisp_shell.Cloud.Bindings.{revoke}
use wisp_shell.Cloud.Server.{Request, code_start, code_approve, binding_revoke, step, run, fresh}
use wisp_shell.Cloud.Server.SingleUse.{approve_code_once}
use wisp_shell.Cloud.Server.OneActive.{run-IsOneActive, IsActive, IsOneActive}
use wisp_shell.Cloud.Server.Keyed.{empty-IsKeyedDb}
use wisp_shell.Cloud.Server.Registry.{registry}
use wisp_shell.Cloud.Server.Refinement.{performs, acts_of, run-refines}
use wisp_shell.Cloud.Server.Revocation.{rendezvous-revoke, rendezvous-approve_code}
use wisp_shell.Cloud.Store.RoundTrip.{IsKeyedDb}
use wisp_shell.Cloud.Rendezvous.{RendezvousInfo, rendezvous}
use wisp_shell.Cloud.Rendezvous.Admission.{IsBound, rendezvous_bound, rendezvous_answers}
use wisp_shell.Cloud.AuthDevice.{verify_signed_request}
use wisp_shell.Cloud.AuthDevice.Acceptance.{IsAuthentic, IsAuthentic-verify_signed_request}
use wisp_shell.Protocol.Crypto.{device_id_from_public_key}
use wisp_shell.Protocol.Signing.{rest_signature_payload}

-- A codec whose texts hold the value as they are.
abbrev codec : Codec
codec = record {
  to_rfc3339 = λ t. t ∷ [];
  parse_from_rfc3339 = first;
  json_to_string = λ j. some j;
  json_from_str = λ s. some s;
}
  where
    first : Str → Option Time
    first [] = none
    first (t ∷ rest) = some t

abbrev client : Str
client = text "client"

abbrev daemon : Str
daemon = text "daemon"

abbrev daemon_keys : DeviceKeypair
daemon_keys = record { signing_key = 7 ∷ 8 ∷ 9 ∷ [] }

daemon_key : Str
unfolding public_key_b64 toy
daemon_key = public_key_b64 toy daemon_keys

abbrev cert : BindingCertificate
cert = record {
  binding_id = text "b1";
  daemon_device_id = daemon;
  daemon_public_key = daemon_key;
  client_device_id = client;
  client_public_key = text "key";
  permissions = text "terminal" ∷ [];
  created_at = 4;
}

abbrev serde : Serde
serde = record { cert_from_str = λ s. some cert; strings_to_string = λ ss. none }

abbrev code : Str
code = encode_pairing_code (1 ∷ 2 ∷ 3 ∷ 4 ∷ 5 ∷ 6 ∷ 7 ∷ 8 ∷ [])

code_hash : Str
unfolding toy encode_pairing_code sha256_hex
code_hash = sha256_hex toy code

abbrev start_request : StartCodePairingRequest
start_request = record {
  pair_id = some (text "p1");
  code_hash = code_hash;
  client_device_id = client;
  client_public_key = text "key";
  client_name = text "phone";
  expires_at = 10;
}

abbrev started : AppState
started = step toy codec serde (fresh none) (code_start start_request [] 1 2)

abbrev request : ApproveCodePairingRequest
request = record {
  code = code;
  daemon_device_id = daemon;
  daemon_public_key = daemon_key;
  daemon_name = text "host";
  binding_id = text "b1";
  binding_cert_json = text "{}";
  binding_signature = sign_b64 toy daemon_keys (text "{}");
}

abbrev session : CodePairingSession
session = record {
  pair_id = text "p1";
  code_hash = code_hash;
  client_device_id = client;
  client_public_key = text "key";
  client_name = text "phone";
  expires_at = 10;
  used_at = none;
  created_at = 2;
}

abbrev approved : AppState
approved = step toy codec serde started (code_approve request 3 4 5)

hashed : pairing_code_hash toy code ≡ ok code_hash
unfolding pairing_code_hash code_hash wisp_shell.Protocol.PairingCode.normalize_pairing_code
    wisp_shell.Protocol.PairingCode.compact wisp_shell.Protocol.PairingCode.format_code
    wisp_shell.Protocol.PairingCode.code_chars wisp_shell.Protocol.PairingCode.alphabet_at
    wisp_shell.Protocol.PairingCode.u64_from_be_bytes wisp_shell.Prelude.all
    wisp_shell.Protocol.PairingCode.contains
hashed = refl

approves :
    approve_code toy codec serde started request 3 4 5
    ≡ ok (code_binding request session 5, approved)
unfolding approve_code step daemon_key code_hash public_key_b64 sign_b64
    wisp_shell.Cloud.CodePairing.check_approval pairing_code_hash
    wisp_shell.Protocol.PairingCode.normalize_pairing_code wisp_shell.Protocol.PairingCode.compact
    wisp_shell.Protocol.PairingCode.format_code wisp_shell.Protocol.PairingCode.code_chars
    wisp_shell.Protocol.PairingCode.alphabet_at wisp_shell.Protocol.PairingCode.u64_from_be_bytes
    wisp_shell.Prelude.all wisp_shell.Protocol.PairingCode.contains
    wisp_shell.Cloud.CodePairing.usable_session get start_code wisp_shell.Cloud.App.persist_or_log
    wisp_shell.Prelude.HashMap.insert wisp_shell.Cloud.CodePairing.cert_matches
    wisp_shell.Protocol.Signing.verify_b64
approves = refl

not_renewed :
    All (λ (r : Request). renewed_hash r ≢ some code_hash) (binding_revoke (text "b1") 6 ∷ [])
not_renewed = (λ e. cc e, tt)

approve_code_once_example :
    (approve_code toy codec serde
        (run toy codec serde approved (binding_revoke (text "b1") 6 ∷ []))
        request
        7
        8
        9
      ≡ err (rejection conflict pairing_used))
    × (resolve_code toy (run toy codec serde approved (binding_revoke (text "b1") 6 ∷ [])) code 9
        ≡ err (rejection conflict pairing_used))
approve_code_once_example =
    approve_code_once toy codec serde started approved request request 3 4 5 7 8 9
      (code_binding request session 5) (binding_revoke (text "b1") 6 ∷ []) code_hash approves hashed
      hashed not_renewed

none_active : (d l i j : Str) → IsActive [] d l i → IsActive [] d l j → i ≡ j
unfolding get
none_active d l i j a b = absurd (absent a.found)
  where
    absent : {b : Binding} → get [] i ≡ some b → ⊥
    absent e = cc e

requests : List Request
requests = code_start start_request [] 1 2 ∷ code_approve request 3 4 5 ∷ []

run-IsOneActive_example : IsOneActive (run toy codec serde (fresh none) requests).inner.bindings
run-IsOneActive_example =
    run-IsOneActive toy codec serde (fresh none) requests empty-IsKeyedDb none_active

run-refines_example :
    registry (run toy codec serde (fresh none) requests).inner.bindings (text "b1")
    ≡ performs (acts_of toy codec serde (fresh none) requests) (registry []) (text "b1")
run-refines_example = run-refines toy codec serde (fresh none) requests (text "b1") empty-IsKeyedDb
