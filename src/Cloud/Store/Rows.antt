-- ===== src/Cloud/Store/Rows.antt =====
-- The rows of the SQLite tables of components/cloud/src/db.rs: a time is its RFC 3339 text, a JSON
-- value its text, as `save` writes them and the loaders read them back. `to_rfc3339`,
-- `parse_from_rfc3339` and serde_json are the parameter `Codec`.
use wisp_shell.Prelude.{◌≡◌, Option, none, some, Str, Result, ok, ok_or, ◌>>=◌}
use wisp_shell.Protocol.Failure.{Failure, invalid_time, invalid_json}
use wisp_shell.Cloud.Db.{Time, Json, Device, PairingSession, CodePairingSession, Binding, Presence}

pub record Codec : Type 0 where
  pub to_rfc3339 : Time → Str
  pub parse_from_rfc3339 : Str → Option Time
  pub json_to_string : Json → Option Str
  pub json_from_str : Str → Option Json

-- Times and JSON values read back from their texts.
pub record IsLawful (k : Codec) : Type 0 where
  pub parse-to_rfc3339 : (t : Time) → k.parse_from_rfc3339 (k.to_rfc3339 t) ≡ some t
  pub json_text :
      (j : Json) → (s : Str) × (k.json_to_string j ≡ some s) × (k.json_from_str s ≡ some j)

pub record DeviceRow : Type 0 where
  pub device_id : Str
  pub kind : Str
  pub display_name : Str
  pub public_key : Str
  pub created_at : Str
  pub last_seen_at : Option Str

pub record PairingSessionRow : Type 0 where
  pub pair_id : Str
  pub daemon_device_id : Str
  pub daemon_public_key : Str
  pub expires_at : Str
  pub used_at : Option Str
  pub created_at : Str

pub record CodePairingSessionRow : Type 0 where
  pub code_hash : Str
  pub pair_id : Str
  pub client_device_id : Str
  pub client_public_key : Str
  pub client_name : Str
  pub expires_at : Str
  pub used_at : Option Str
  pub created_at : Str

pub record BindingRow : Type 0 where
  pub binding_id : Str
  pub daemon_device_id : Str
  pub client_device_id : Str
  pub permissions_json : Str
  pub binding_cert_json : Str
  pub binding_signature : Str
  pub created_at : Str
  pub revoked_at : Option Str

pub record PresenceRow : Type 0 where
  pub device_id : Str
  pub status : Str
  pub iroh_node_addr_json : Option Str
  pub agent_version : Option Str
  pub updated_at : Str

module _ (k : Codec) where
  unfoldable pub encode_dt : Time → Str
  encode_dt value = k.to_rfc3339 value

  unfoldable pub decode_dt : Str → Result Failure Time
  decode_dt value = ok_or (k.parse_from_rfc3339 value) invalid_time

  unfoldable pub encode_optional_dt : Option Time → Option Str
  unfolding encode_dt
  encode_optional_dt none = none
  encode_optional_dt (some t) = some (encode_dt t)

  unfoldable pub decode_optional_dt : Option Str → Result Failure (Option Time)
  unfolding decode_dt
  decode_optional_dt none = ok none
  decode_optional_dt (some s) = do t ← decode_dt s; ok (some t)

  -- `.as_ref().map(serde_json::to_string).transpose()?`
  unfoldable pub encode_json : Option Json → Result Failure (Option Str)
  encode_json none = ok none
  encode_json (some j) = do s ← ok_or (k.json_to_string j) invalid_json; ok (some s)

  unfoldable pub decode_json : Option Str → Result Failure (Option Json)
  decode_json none = ok none
  decode_json (some s) = do j ← ok_or (k.json_from_str s) invalid_json; ok (some j)

  unfoldable pub device_row : Device → Result Failure DeviceRow
  device_row device = ok (record {
    device_id = device.device_id;
    kind = device.kind;
    display_name = device.display_name;
    public_key = device.public_key;
    created_at = encode_dt device.created_at;
    last_seen_at = encode_optional_dt device.last_seen_at;
  })

  unfoldable pub device_of_row : DeviceRow → Result Failure Device
  device_of_row row = do
    created_at ← decode_dt row.created_at
    last_seen_at ← decode_optional_dt row.last_seen_at
    ok (record {
      device_id = row.device_id;
      kind = row.kind;
      display_name = row.display_name;
      public_key = row.public_key;
      created_at = created_at;
      last_seen_at = last_seen_at;
    })

  unfoldable pub pairing_row : PairingSession → Result Failure PairingSessionRow
  pairing_row pairing = ok (record {
    pair_id = pairing.pair_id;
    daemon_device_id = pairing.daemon_device_id;
    daemon_public_key = pairing.daemon_public_key;
    expires_at = encode_dt pairing.expires_at;
    used_at = encode_optional_dt pairing.used_at;
    created_at = encode_dt pairing.created_at;
  })

  unfoldable pub pairing_of_row : PairingSessionRow → Result Failure PairingSession
  pairing_of_row row = do
    expires_at ← decode_dt row.expires_at
    used_at ← decode_optional_dt row.used_at
    created_at ← decode_dt row.created_at
    ok (record {
      pair_id = row.pair_id;
      daemon_device_id = row.daemon_device_id;
      daemon_public_key = row.daemon_public_key;
      expires_at = expires_at;
      used_at = used_at;
      created_at = created_at;
    })

  unfoldable pub code_pairing_row : CodePairingSession → Result Failure CodePairingSessionRow
  code_pairing_row session = ok (record {
    code_hash = session.code_hash;
    pair_id = session.pair_id;
    client_device_id = session.client_device_id;
    client_public_key = session.client_public_key;
    client_name = session.client_name;
    expires_at = encode_dt session.expires_at;
    used_at = encode_optional_dt session.used_at;
    created_at = encode_dt session.created_at;
  })

  unfoldable pub code_pairing_of_row : CodePairingSessionRow → Result Failure CodePairingSession
  code_pairing_of_row row = do
    expires_at ← decode_dt row.expires_at
    used_at ← decode_optional_dt row.used_at
    created_at ← decode_dt row.created_at
    ok (record {
      code_hash = row.code_hash;
      pair_id = row.pair_id;
      client_device_id = row.client_device_id;
      client_public_key = row.client_public_key;
      client_name = row.client_name;
      expires_at = expires_at;
      used_at = used_at;
      created_at = created_at;
    })

  unfoldable pub binding_row : Binding → Result Failure BindingRow
  binding_row binding = ok (record {
    binding_id = binding.binding_id;
    daemon_device_id = binding.daemon_device_id;
    client_device_id = binding.client_device_id;
    permissions_json = binding.permissions_json;
    binding_cert_json = binding.binding_cert_json;
    binding_signature = binding.binding_signature;
    created_at = encode_dt binding.created_at;
    revoked_at = encode_optional_dt binding.revoked_at;
  })

  unfoldable pub binding_of_row : BindingRow → Result Failure Binding
  binding_of_row row = do
    created_at ← decode_dt row.created_at
    revoked_at ← decode_optional_dt row.revoked_at
    ok (record {
      binding_id = row.binding_id;
      daemon_device_id = row.daemon_device_id;
      client_device_id = row.client_device_id;
      permissions_json = row.permissions_json;
      binding_cert_json = row.binding_cert_json;
      binding_signature = row.binding_signature;
      created_at = created_at;
      revoked_at = revoked_at;
    })

  unfoldable pub presence_row : Presence → Result Failure PresenceRow
  presence_row presence = do
    address ← encode_json presence.iroh_node_addr_json
    ok (record {
      device_id = presence.device_id;
      status = presence.status;
      iroh_node_addr_json = address;
      agent_version = presence.agent_version;
      updated_at = encode_dt presence.updated_at;
    })

  unfoldable pub presence_of_row : PresenceRow → Result Failure Presence
  presence_of_row row = do
    iroh_node_addr_json ← decode_json row.iroh_node_addr_json
    updated_at ← decode_dt row.updated_at
    ok (record {
      device_id = row.device_id;
      status = row.status;
      iroh_node_addr_json = iroh_node_addr_json;
      agent_version = row.agent_version;
      updated_at = updated_at;
    })
