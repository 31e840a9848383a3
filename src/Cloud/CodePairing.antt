-- ===== src/Cloud/CodePairing.antt =====
-- The pairing by a typed code of components/cloud/src/pairing.rs. `checked`, `used` and `now` are
-- the readings of `Utc::now()` in their order; `uuid` is what `Uuid::new_v4()` gives.
use wisp_shell.Prelude.{
  ◌&&◌, not, Bool, false, Option, none, some, ◌∷◌, ◌++◌, Str, text, str_eq, any, Result, ok, err,
  ensure, ok_or, is_some, ◌>>=◌, ◌>>◌, leb, if◌then◌else◌,
}
use wisp_shell.Prelude.HashMap.{HashMap, get, insert, modify}
use wisp_shell.Protocol.ErrorCode.{
  invalid_request, pairing_not_found, pairing_used, pairing_expired, signature_invalid,
}
use wisp_shell.Protocol.Messages.{BindingCertificate}
use wisp_shell.Protocol.Crypto.{Primitives}
use wisp_shell.Protocol.PairingHash.{pairing_code_hash}
use wisp_shell.Protocol.Signing.{verify_b64}
use wisp_shell.Cloud.Db.{Time, Db, Device, Binding, CodePairingSession}
use wisp_shell.Cloud.Store.Rows.{Codec}
use wisp_shell.Cloud.App.{AppState, persist_or_log}
use wisp_shell.Cloud.Http.{
  Answer, Rejection, rejection, bad_request, unauthorized, not_found, conflict, gone,
}
use wisp_shell.Cloud.Pairing.{Serde, revoke_existing_active_bindings}

pub record StartCodePairingRequest : Type 0 where
  pub pair_id : Option Str
  pub code_hash : Str
  pub client_device_id : Str
  pub client_public_key : Str
  pub client_name : Str
  pub expires_at : Time

pub record ApproveCodePairingRequest : Type 0 where
  pub code : Str
  pub daemon_device_id : Str
  pub daemon_public_key : Str
  pub daemon_name : Str
  pub binding_id : Str
  pub binding_cert_json : Str
  pub binding_signature : Str

pub record ResolveCodePairingResponse : Type 0 where
  pub pair_id : Str
  pub client_device_id : Str
  pub client_public_key : Str
  pub client_name : Str
  pub expires_at : Time

-- `.map_err(|_| rejection)?`
abbrev pub or_reject {ℓ} : {E R A : Type ℓ} → Result E A → R → Result R A
or_reject (ok a) r = ok a
or_reject (err e) r = err r

-- `.unwrap_or(false)`
abbrev pub or_false : {E : Type 0} → Result E Bool → Bool
or_false (ok b) = b
or_false (err e) = false

-- The session of a code, if it is known, unused and not expired.
unfoldable pub usable_session :
    HashMap CodePairingSession → Str → Time → Result Rejection CodePairingSession
usable_session code_pairings code_hash now = do
  session ← ok_or (get code_pairings code_hash) (rejection not_found pairing_not_found)
  ensure (not (is_some session.used_at)) (rejection conflict pairing_used)
  ensure (not (leb session.expires_at now)) (rejection gone pairing_expired)
  ok session

-- The certificate names the request's daemon and binding and the session's client, and grants
-- the terminal.
unfoldable pub cert_matches :
    BindingCertificate → ApproveCodePairingRequest → CodePairingSession → Bool
unfolding any
cert_matches cert req session =
    str_eq cert.binding_id req.binding_id
    && str_eq cert.daemon_device_id req.daemon_device_id
    && str_eq cert.daemon_public_key req.daemon_public_key
    && str_eq cert.client_device_id session.client_device_id
    && str_eq cert.client_public_key session.client_public_key
    && any (λ permission. str_eq permission (text "terminal")) cert.permissions

-- `db.devices.entry(id).or_insert(device)`
unfoldable pub or_insert : HashMap Device → Str → Device → HashMap Device
or_insert devices id device = if is_some (get devices id) then devices else insert devices id device

-- `json!(["terminal"]).to_string()`; 34 is the quotation mark.
abbrev pub terminal_json : Str
terminal_json = text "[" ++ (34 ∷ (text "terminal" ++ (34 ∷ text "]")))

-- The binding that an approval makes.
abbrev pub code_binding : ApproveCodePairingRequest → CodePairingSession → Time → Binding
code_binding req session now = record {
  binding_id = req.binding_id;
  daemon_device_id = req.daemon_device_id;
  client_device_id = session.client_device_id;
  permissions_json = terminal_json;
  binding_cert_json = req.binding_cert_json;
  binding_signature = req.binding_signature;
  created_at = now;
  revoked_at = none;
}

-- The changes of `approve_code` to the data, once the checks have passed.
unfoldable pub record_approval :
    Db → ApproveCodePairingRequest → Str → CodePairingSession → Time → Time → Db
unfolding or_insert revoke_existing_active_bindings
record_approval db req code_hash session used now =
    let mark = λ (p : CodePairingSession). record p { used_at = some used } in
    let daemon : Device = record {
      device_id = req.daemon_device_id;
      kind = text "daemon";
      display_name = req.daemon_name;
      public_key = req.daemon_public_key;
      created_at = now;
      last_seen_at = some now;
    } in
    let db' = record db {
      code_pairings = modify db.code_pairings code_hash mark;
      devices = or_insert db.devices req.daemon_device_id daemon;
    } in
    let db'' =
      revoke_existing_active_bindings db' req.daemon_device_id session.client_device_id
        req.binding_id now in
    record db'' { bindings = insert db''.bindings req.binding_id (code_binding req session now) }

module _ (k : Codec) where
  unfoldable pub start_code :
      AppState → StartCodePairingRequest → Str → Time → Time → Answer CodePairingSession
  start_code s req uuid checked now = do
    ensure (not (leb req.expires_at checked)) (rejection gone pairing_expired)
    let session : CodePairingSession = record {
      pair_id = elim req.pair_id [ none ↦ uuid | some id ↦ id ];
      code_hash = req.code_hash;
      client_device_id = req.client_device_id;
      client_public_key = req.client_public_key;
      client_name = req.client_name;
      expires_at = req.expires_at;
      used_at = none;
      created_at = now;
    }
    let db = record (s.inner) {
      code_pairings = insert s.inner.code_pairings session.code_hash session;
    }
    ok (session, persist_or_log k (record s { inner = db }))

module _ (c : Primitives) where
  unfoldable pub resolve_code : AppState → Str → Time → Result Rejection ResolveCodePairingResponse
  unfolding usable_session
  resolve_code s code now = do
    code_hash ← or_reject (pairing_code_hash c code) (rejection bad_request invalid_request)
    session ← usable_session s.inner.code_pairings code_hash now
    ok (record {
      pair_id = session.pair_id;
      client_device_id = session.client_device_id;
      client_public_key = session.client_public_key;
      client_name = session.client_name;
      expires_at = session.expires_at;
    })

  -- The checks of `approve_code`: the code's hash and its session.
  unfoldable pub check_approval :
      Serde → Db → ApproveCodePairingRequest → Time → Result Rejection (Str × CodePairingSession)
  check_approval j db req checked = do
    code_hash ← or_reject (pairing_code_hash c req.code) (rejection bad_request invalid_request)
    session ← usable_session db.code_pairings code_hash checked
    cert ← ok_or (j.cert_from_str req.binding_cert_json) (rejection bad_request invalid_request)
    ensure (cert_matches cert req session) (rejection unauthorized signature_invalid)
    ensure
        (or_false (verify_b64 c req.daemon_public_key req.binding_cert_json req.binding_signature))
        (rejection unauthorized signature_invalid)
    ok (code_hash, session)

  unfoldable pub approve_code :
      Codec → Serde → AppState → ApproveCodePairingRequest → Time → Time → Time → Answer Binding
  approve_code k j s req checked used now = do
    (code_hash, session) ← check_approval j s.inner req checked
    let db = record_approval s.inner req code_hash session used now
    ok (code_binding req session now, persist_or_log k (record s { inner = db }))
