-- ===== src/Cloud/AuthDevice.antt =====
-- components/cloud/src/auth_device.rs: the check of a signed request. A time is in nanoseconds, so
-- `num_seconds` of a difference, without its sign, is the distance divided by 10 ^ 9.
pub mod Acceptance
use wisp_shell.Prelude.{
  ℕ, ◌+◌, ◌-◌, ◌*◌, ◌/◌, ◌^◌, Bool, not, Option, List, Str, str_eq, Result, ok, ensure, ok_or,
  ◌>>=◌, ◌>>◌, ltb,
}
use wisp_shell.Prelude.HashMap.{get}
use wisp_shell.Protocol.ErrorCode.{ErrorCode, device_not_found, signature_invalid}
use wisp_shell.Protocol.Crypto.{Primitives, device_id_from_public_key}
use wisp_shell.Protocol.Signing.{rest_signature_payload, verify_b64}
use wisp_shell.Cloud.Db.{Time, Db}
use wisp_shell.Cloud.Store.Rows.{Codec}
use wisp_shell.Cloud.CodePairing.{or_reject, or_false}

-- `(now - timestamp).num_seconds().abs()`
abbrev pub seconds_apart : Time → Time → ℕ
seconds_apart now timestamp = ((now - timestamp) + (timestamp - now)) / 10 ^ 9

-- `Duration::minutes(5).num_seconds()`
abbrev pub max_skew : ℕ
max_skew = 5 * 60

module _ (c : Primitives) (k : Codec) where
  unfoldable pub verify_signed_request :
      Db → Str → Str → Str → Str → List ℕ → Str → Time → Result ErrorCode (Unit {0})
  verify_signed_request db device_id method path timestamp body signature_b64 now = do
    device ← ok_or (get db.devices device_id) device_not_found
    derived ← or_reject (device_id_from_public_key c device.public_key) signature_invalid
    ensure (str_eq derived device_id) signature_invalid
    time ← ok_or (k.parse_from_rfc3339 timestamp) signature_invalid
    ensure (not (ltb max_skew (seconds_apart now time))) signature_invalid
    let payload = rest_signature_payload c method path (k.to_rfc3339 time) body
    ensure (or_false (verify_b64 c device.public_key payload signature_b64)) signature_invalid
