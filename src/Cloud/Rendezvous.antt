-- ===== src/Cloud/Rendezvous.antt =====
-- components/cloud/src/rendezvous.rs.
pub mod Admission
use wisp_shell.Prelude.{
  ◌&&◌, not, Option, none, some, Str, text, str_eq, Result, ok, ok_or, ensure, is_some, ◌>>=◌, ◌>>◌,
}
use wisp_shell.Prelude.HashMap.{get}
use wisp_shell.Protocol.ErrorCode.{device_not_found, device_not_bound, device_revoked}
use wisp_shell.Cloud.Db.{Time, Json, Presence}
use wisp_shell.Cloud.App.{AppState}
use wisp_shell.Cloud.Http.{Rejection, rejection, unauthorized, forbidden, not_found}
use wisp_shell.Cloud.Bindings.{map_or}

-- The JSON object of the answer; `registry_version`, a constant of the build, is left out.
pub record RendezvousInfo : Type 0 where
  pub daemon_device_id : Str
  pub daemon_public_key : Str
  pub status : Str
  pub iroh_node_addr : Option Json
  pub agent_version : Option Str
  pub updated_at : Option Time

unfoldable pub rendezvous : AppState → Str → Str → Str → Result Rejection RendezvousInfo
rendezvous s daemon_device_id client_device_id binding_id = do
  device ← ok_or (get s.inner.devices daemon_device_id) (rejection not_found device_not_found)
  binding ← ok_or (get s.inner.bindings binding_id) (rejection unauthorized device_not_bound)
  ensure
      (str_eq binding.daemon_device_id daemon_device_id
        && str_eq binding.client_device_id client_device_id)
      (rejection unauthorized device_not_bound)
  ensure (not (is_some binding.revoked_at)) (rejection forbidden device_revoked)
  let presence = get s.inner.presence daemon_device_id
  ok (record {
    daemon_device_id = daemon_device_id;
    daemon_public_key = device.public_key;
    status = map_or presence (λ (p : Presence). p.status) (text "offline");
    iroh_node_addr = map_or presence (λ (p : Presence). p.iroh_node_addr_json) none;
    agent_version = map_or presence (λ (p : Presence). p.agent_version) none;
    updated_at = map_or presence (λ (p : Presence). some p.updated_at) none;
  })
