-- ===== src/Cloud/Bindings.antt =====
-- The listings and the revocation of bindings, components/cloud/src/pairing.rs.
use wisp_shell.Prelude.{
  ◌&&◌, not, Option, none, some, List, [], map, filter, Str, text, str_eq, ok, ok_or, is_some,
  ◌>>=◌,
}
use wisp_shell.Prelude.HashMap.{get, modify, values}
use wisp_shell.Protocol.ErrorCode.{device_not_bound}
use wisp_shell.Cloud.Db.{Time, Db, Device, Presence, Binding}
use wisp_shell.Cloud.Store.Rows.{Codec}
use wisp_shell.Cloud.App.{AppState, persist_or_log}
use wisp_shell.Cloud.Http.{Answer, rejection, not_found}

pub record BoundDaemonResponse : Type 0 where
  pub binding_id : Str
  pub daemon_device_id : Str
  pub daemon_public_key : Str
  pub display_name : Str
  pub status : Str

-- `opt.map(f).unwrap_or(default)`
abbrev pub map_or {ℓ κ} : {A : Type ℓ} {B : Type κ} → Option A → (A → B) → B → B
map_or none f default = default
map_or (some a) f default = f a

abbrev pub bound_daemon : Db → Binding → BoundDaemonResponse
bound_daemon db b = record {
  binding_id = b.binding_id;
  daemon_device_id = b.daemon_device_id;
  daemon_public_key = map_or (get db.devices b.daemon_device_id) (λ (d : Device). d.public_key) [];
  display_name =
      map_or (get db.devices b.daemon_device_id) (λ (d : Device). d.display_name)
        b.daemon_device_id;
  status =
      map_or (get db.presence b.daemon_device_id) (λ (p : Presence). p.status) (text "offline");
}

unfoldable pub bindings_for_client : AppState → Str → List BoundDaemonResponse
unfolding filter values
bindings_for_client s client_device_id = map (bound_daemon s.inner) (
    filter
      (λ (b : Binding). str_eq b.client_device_id client_device_id && not (is_some b.revoked_at))
      (values s.inner.bindings))

unfoldable pub bindings_for_daemon : AppState → Str → List Binding
unfolding filter values
bindings_for_daemon s daemon_device_id =
    filter (λ (b : Binding). str_eq b.daemon_device_id daemon_device_id) (values s.inner.bindings)

module _ (k : Codec) where
  unfoldable pub revoke : AppState → Str → Time → Answer Binding
  revoke s binding_id now = do
    binding ← ok_or (get s.inner.bindings binding_id) (rejection not_found device_not_bound)
    let mark = λ (b : Binding). record b { revoked_at = some now }
    let db = record (s.inner) { bindings = modify s.inner.bindings binding_id mark }
    ok (mark binding, persist_or_log k (record s { inner = db }))
