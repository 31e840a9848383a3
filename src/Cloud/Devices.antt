-- ===== src/Cloud/Devices.antt =====
-- components/cloud/src/devices.rs and presence.rs. `created`, `seen` and `now` are the readings of
-- `Utc::now()`, in order.
use wisp_shell.Prelude.{◌||◌, Option, some, Str, text, str_eq, Result, ok, ensure, ok_or, ◌>>◌}
use wisp_shell.Prelude.HashMap.{get, insert}
use wisp_shell.Protocol.ErrorCode.{invalid_request, device_not_found}
use wisp_shell.Cloud.Db.{Time, Json, Device, Presence}
use wisp_shell.Cloud.Store.Rows.{Codec}
use wisp_shell.Cloud.App.{AppState, persist_or_log}
use wisp_shell.Cloud.Http.{Answer, Rejection, rejection, bad_request, not_found}

pub record RegisterDeviceRequest : Type 0 where
  pub device_id : Str
  pub kind : Str
  pub display_name : Str
  pub public_key : Str

pub record PresenceUpdateRequest : Type 0 where
  pub device_id : Str
  pub status : Str
  pub iroh_node_addr_json : Option Json
  pub agent_version : Option Str

unfoldable pub get_device : AppState → Str → Result Rejection Device
get_device s device_id =
    ok_or (get s.inner.devices device_id) (rejection not_found device_not_found)

module _ (k : Codec) where
  unfoldable pub register : AppState → RegisterDeviceRequest → Time → Time → Answer Device
  register s req created seen = do
    ensure (str_eq req.kind (text "daemon") || str_eq req.kind (text "android"))
        (rejection bad_request invalid_request)
    let device : Device = record {
      device_id = req.device_id;
      kind = req.kind;
      display_name = req.display_name;
      public_key = req.public_key;
      created_at = created;
      last_seen_at = some seen;
    }
    let db = record (s.inner) { devices = insert s.inner.devices req.device_id device }
    ok (device, persist_or_log k (record s { inner = db }))

  unfoldable pub update : AppState → PresenceUpdateRequest → Time → Answer Presence
  update s req now =
      let presence : Presence = record {
        device_id = req.device_id;
        status = req.status;
        iroh_node_addr_json = req.iroh_node_addr_json;
        agent_version = req.agent_version;
        updated_at = now;
      } in
      let db = record (s.inner) { presence = insert s.inner.presence req.device_id presence } in
      ok (presence, persist_or_log k (record s { inner = db }))
