-- ===== src/Cloud/Db.antt =====
-- The data of components/cloud/src/db.rs. A `DateTime<Utc>` is a native number, its nanoseconds from
-- chrono's earliest instant; a JSON value is its text.
use wisp_shell.Prelude.{ℕ, Option, [], Str}
use wisp_shell.Prelude.HashMap.{HashMap}

abbrev pub Time : Type 0
Time = ℕ

abbrev pub Json : Type 0
Json = Str

pub record Device : Type 0 where
  pub device_id : Str
  pub kind : Str
  pub display_name : Str
  pub public_key : Str
  pub created_at : Time
  pub last_seen_at : Option Time

pub record PairingSession : Type 0 where
  pub pair_id : Str
  pub daemon_device_id : Str
  pub daemon_public_key : Str
  pub expires_at : Time
  pub used_at : Option Time
  pub created_at : Time

pub record CodePairingSession : Type 0 where
  pub pair_id : Str
  pub code_hash : Str
  pub client_device_id : Str
  pub client_public_key : Str
  pub client_name : Str
  pub expires_at : Time
  pub used_at : Option Time
  pub created_at : Time

pub record Binding : Type 0 where
  pub binding_id : Str
  pub daemon_device_id : Str
  pub client_device_id : Str
  pub permissions_json : Str
  pub binding_cert_json : Str
  pub binding_signature : Str
  pub created_at : Time
  pub revoked_at : Option Time

pub record Presence : Type 0 where
  pub device_id : Str
  pub status : Str
  pub iroh_node_addr_json : Option Json
  pub agent_version : Option Str
  pub updated_at : Time

-- `AgentEvent` has the one variant `PairingClaimed`.
pub record AgentEvent : Type 0 where
  pub pair_id : Str
  pub client_device_id : Str
  pub client_public_key : Str
  pub client_name : Str
  pub proof : Str

pub record Db : Type 0 where
  pub devices : HashMap Device
  pub pairings : HashMap PairingSession
  pub code_pairings : HashMap CodePairingSession
  pub bindings : HashMap Binding
  pub presence : HashMap Presence

abbrev pub empty : Db
empty = record { devices = []; pairings = []; code_pairings = []; bindings = []; presence = [] }
