-- ===== src/Cloud/Pairing.antt =====
-- The QR pairing of components/cloud/src/pairing.rs, and the revocation that both pairings share.
-- serde_json is the parameter `Serde`; `now` is the reading of `Utc::now()`.
use wisp_shell.Prelude.{
  ◌&&◌, not, Bool, Option, none, some, List, Str, text, str_eq, Result, ok, ensure, ok_or, is_some,
  ◌>>=◌, ◌>>◌, leb, if◌then◌else◌,
}
use wisp_shell.Prelude.HashMap.{get, insert, modify, map_values}
use wisp_shell.Protocol.ErrorCode.{pairing_not_found, pairing_used, pairing_expired}
use wisp_shell.Protocol.Messages.{BindingCertificate}
use wisp_shell.Cloud.Db.{Time, Db, Binding, PairingSession, AgentEvent}
use wisp_shell.Cloud.Store.Rows.{Codec}
use wisp_shell.Cloud.App.{AppState, event_sender, send, persist_or_log}
use wisp_shell.Cloud.Http.{Answer, Rejection, rejection, not_found, conflict, gone}

-- serde_json on a binding certificate, and on a list of strings.
pub record Serde : Type 0 where
  pub cert_from_str : Str → Option BindingCertificate
  pub strings_to_string : List Str → Option Str

pub record StartPairingRequest : Type 0 where
  pub pair_id : Str
  pub daemon_device_id : Str
  pub daemon_public_key : Str
  pub expires_at : Time

pub record ClaimPairingRequest : Type 0 where
  pub pair_id : Str
  pub client_device_id : Str
  pub client_public_key : Str
  pub client_name : Str
  pub proof : Str
  pub client_signature : Option Str

pub record ApprovePairingRequest : Type 0 where
  pub binding_id : Str
  pub pair_id : Str
  pub daemon_device_id : Str
  pub client_device_id : Str
  pub permissions : List Str
  pub binding_cert_json : Str
  pub binding_signature : Str

-- The test of the loop in `revoke_existing_active_bindings`.
unfoldable pub is_superseded : Str → Str → Str → Binding → Bool
is_superseded daemon_device_id client_device_id replacement_binding_id binding =
    not (str_eq binding.binding_id replacement_binding_id)
    && str_eq binding.daemon_device_id daemon_device_id
    && str_eq binding.client_device_id client_device_id
    && not (is_some binding.revoked_at)

unfoldable pub revoke_existing_active_bindings : Db → Str → Str → Str → Time → Db
unfolding is_superseded
revoke_existing_active_bindings db daemon_device_id client_device_id replacement_binding_id
      revoked_at =
    record db {
      bindings =
          map_values
            (λ b.
              if is_superseded daemon_device_id client_device_id replacement_binding_id b
              then record b { revoked_at = some revoked_at }
              else b)
            db.bindings;
    }

unfoldable pub get_pairing : AppState → Str → Result Rejection PairingSession
get_pairing s pair_id = ok_or (get s.inner.pairings pair_id) (rejection not_found pairing_not_found)

-- `claim` changes no data: it sends the claim to the daemon's channel.
unfoldable pub claim : AppState → ClaimPairingRequest → Time → Answer Str
unfolding event_sender send
claim s req now = do
  pairing ← ok_or (get s.inner.pairings req.pair_id) (rejection not_found pairing_not_found)
  ensure (not (is_some pairing.used_at)) (rejection conflict pairing_used)
  ensure (not (leb pairing.expires_at now)) (rejection gone pairing_expired)
  let event : AgentEvent = record {
    pair_id = req.pair_id;
    client_device_id = req.client_device_id;
    client_public_key = req.client_public_key;
    client_name = req.client_name;
    proof = req.proof;
  }
  ok (text "pending", send (event_sender s pairing.daemon_device_id) pairing.daemon_device_id event)

-- `serde_json::to_string(&permissions).unwrap_or_else(|_| "[]".to_string())`
abbrev pub permissions_text : Option Str → Str
permissions_text none = text "[]"
permissions_text (some s) = s

module _ (k : Codec) where
  unfoldable pub start : AppState → StartPairingRequest → Time → Answer PairingSession
  start s req now =
      let session : PairingSession = record {
        pair_id = req.pair_id;
        daemon_device_id = req.daemon_device_id;
        daemon_public_key = req.daemon_public_key;
        expires_at = req.expires_at;
        used_at = none;
        created_at = now;
      } in
      let db = record (s.inner) { pairings = insert s.inner.pairings req.pair_id session } in
      ok (session, persist_or_log k (record s { inner = db }))

  unfoldable pub approve : Serde → AppState → ApprovePairingRequest → Time → Answer Binding
  unfolding revoke_existing_active_bindings
  approve j s req now =
      let binding : Binding = record {
        binding_id = req.binding_id;
        daemon_device_id = req.daemon_device_id;
        client_device_id = req.client_device_id;
        permissions_json = permissions_text (j.strings_to_string req.permissions);
        binding_cert_json = req.binding_cert_json;
        binding_signature = req.binding_signature;
        created_at = now;
        revoked_at = none;
      } in
      let used = λ (p : PairingSession). record p { used_at = some now } in
      let db = record (s.inner) { pairings = modify s.inner.pairings req.pair_id used } in
      let db' =
        revoke_existing_active_bindings db req.daemon_device_id req.client_device_id req.binding_id
          now in
      let db'' = record db' { bindings = insert db'.bindings req.binding_id binding } in
      ok (binding, persist_or_log k (record s { inner = db'' }))
