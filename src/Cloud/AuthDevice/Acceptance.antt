-- ===== src/Cloud/AuthDevice/Acceptance.antt =====
-- Which signed requests are accepted (components/cloud/src/auth_device.rs).
use wisp_shell.Prelude.{ℕ, ◌≡◌, ◌≤◌, true, some, List, Str, str_eq_refl, ok, arith}
use wisp_shell.Prelude.HashMap.{get}
use wisp_shell.Protocol.Failure.{Failure}
use wisp_shell.Protocol.Crypto.{Primitives, device_id_from_public_key}
use wisp_shell.Protocol.Signing.{rest_signature_payload, verify_b64}
use wisp_shell.Cloud.Db.{Time, Db, Device}
use wisp_shell.Cloud.Store.Rows.{Codec}
use wisp_shell.Cloud.AuthDevice.{seconds_apart, max_skew, verify_signed_request}

module _ (c : Primitives) (k : Codec) where
  -- What an accepted request shows.
  pub record IsAuthentic (db : Db) (device_id method path timestamp : Str) (body : List ℕ)
      (signature_b64 : Str) (now : Time) : Type 0 where
    pub signer : Device
    pub time : Time
    pub known : get db.devices device_id ≡ some signer
    pub own_id : device_id_from_public_key c signer.public_key ≡ ok device_id
    pub dated : k.parse_from_rfc3339 timestamp ≡ some time
    pub recent : seconds_apart now time ≤ max_skew
    pub signed :
        verify_b64 c signer.public_key
          (rest_signature_payload c method path (k.to_rfc3339 time) body)
          signature_b64
        ≡ ok true

  -- A request is accepted if it names a registered device whose key has that id, its time is at
  -- most 300 whole seconds off the server's clock, and its signature over the method, the path,
  -- the time and the body verifies under that key.
  pub IsAuthentic-verify_signed_request :
      (db : Db) (device_id method path timestamp : Str) (body : List ℕ) (signature_b64 : Str)
      (now : Time)
      → IsAuthentic db device_id method path timestamp body signature_b64 now
      → verify_signed_request c k db device_id method path timestamp body signature_b64 now ≡ ok tt
  unfolding verify_signed_request
  IsAuthentic-verify_signed_request db device_id method path timestamp body signature_b64 now a =
      ground (arith, a.known, a.own_id, a.dated, a.recent, a.signed, str_eq_refl device_id)
