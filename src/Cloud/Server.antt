-- ===== src/Cloud/Server.antt =====
-- The cloud as a whole: the requests of `router` (components/cloud/src/routes.rs) that change its
-- state, one after the other. Each handler holds the lock while it changes the data.
pub mod Change
pub mod Keyed
pub mod OneActive
pub mod Durable
pub mod SingleUse
pub mod Revocation
pub mod Registry
pub mod Refinement
pub mod Listing
pub mod Concurrent
use wisp_shell.Prelude.{Option, some, none, List, [], ◌∷◌, Str}
use wisp_shell.Protocol.Crypto.{Primitives}
use wisp_shell.Cloud.Db.{Time, empty}
use wisp_shell.Cloud.Store.Rows.{Codec}
use wisp_shell.Cloud.Store.{Tables}
use wisp_shell.Cloud.App.{AppState}
use wisp_shell.Cloud.Http.{after}
use wisp_shell.Cloud.Devices.{RegisterDeviceRequest, PresenceUpdateRequest, register, update}
use wisp_shell.Cloud.Pairing.{
  Serde, StartPairingRequest, ClaimPairingRequest, ApprovePairingRequest, start, claim, approve,
}
use wisp_shell.Cloud.CodePairing.{
  StartCodePairingRequest, ApproveCodePairingRequest, start_code, approve_code,
}
use wisp_shell.Cloud.Bindings.{revoke}

-- A request with the clock readings that its handler makes.
pub data Request : Type 0 where
  register_device : RegisterDeviceRequest → (created seen : Time) → Request
  pairing_start : StartPairingRequest → (now : Time) → Request
  pairing_claim : ClaimPairingRequest → (now : Time) → Request
  pairing_approve : ApprovePairingRequest → (now : Time) → Request
  code_start : StartCodePairingRequest → (uuid : Str) → (checked now : Time) → Request
  code_approve : ApproveCodePairingRequest → (checked used now : Time) → Request
  presence_update : PresenceUpdateRequest → (now : Time) → Request
  binding_revoke : (binding_id : Str) → (now : Time) → Request

-- `AppState::default()`, with or without an empty file.
abbrev pub fresh : Option Tables → AppState
fresh store = record { inner = empty; events = []; sent = []; store = store }

module _ (c : Primitives) (k : Codec) (j : Serde) where
  unfoldable pub step : AppState → Request → AppState
  step s (register_device req created seen) = after s (register k s req created seen)
  step s (pairing_start req now) = after s (start k s req now)
  step s (pairing_claim req now) = after s (claim s req now)
  step s (pairing_approve req now) = after s (approve k j s req now)
  step s (code_start req uuid checked now) = after s (start_code k s req uuid checked now)
  step s (code_approve req checked used now) = after s (approve_code c k j s req checked used now)
  step s (presence_update req now) = after s (update k s req now)
  step s (binding_revoke binding_id now) = after s (revoke k s binding_id now)

  unfoldable pub run : AppState → List Request → AppState
  unfolding step
  run s [] = s
  run s (r ∷ rs) = run (step s r) rs
