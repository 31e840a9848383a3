-- ===== src/Protocol/Signing.antt =====
-- crates/wispshell-protocol/src/signing.rs: device keys, signatures, and the texts that are signed.
pub mod Keys
pub mod Transcript
use wisp_shell.Prelude.{
  ℕ, zero, suc, ◌+◌, ◌/◌, ◌%◌, Bool, List, [], ◌∷◌, ◌++◌, map, length, Str, text, Result, ok, err,
  ensure, ◌>>=◌, ◌>>◌, ltb, ◌==◌, if◌then◌else◌,
}
use wisp_shell.Protocol.Failure.{
  Failure, invalid_private_key_length, invalid_public_key_length, invalid_signature_length,
  invalid_public_key,
}
use wisp_shell.Protocol.Crypto.{Primitives, b64_decode, sha256_hex, device_id_from_public_key}
use wisp_shell.Protocol.PairingCode.{to_ascii_uppercase}

-- The 32 bytes of an ed25519 signing key.
pub record DeviceKeypair : Type 0 where
  pub signing_key : List ℕ

-- `to_string` of a `u32`: at most ten digits.
unfoldable pub decimal : ℕ → ℕ → Str
decimal zero n = []
decimal (suc fuel) n =
    let front = decimal fuel (n / 10) in
    if ltb n 10 then (48 + n) ∷ [] else front ++ ((48 + n % 10) ∷ [])

unfoldable pub u32_to_string : ℕ → Str
unfolding decimal
u32_to_string n = decimal 10 n

-- `[..].join(separator)`
unfoldable pub join : Str → List Str → Str
join separator [] = []
join separator (s ∷ []) = s
join separator (s ∷ (t ∷ rest)) = s ++ (separator ++ join separator (t ∷ rest))

abbrev pub newline : Str
newline = 10 ∷ []

module _ (c : Primitives) where
  unfoldable pub public_key_b64 : DeviceKeypair → Str
  public_key_b64 keys = c.base64 (c.verifying_key keys.signing_key)

  unfoldable pub device_id : DeviceKeypair → Result Failure Str
  unfolding public_key_b64 device_id_from_public_key
  device_id keys = device_id_from_public_key c (public_key_b64 keys)

  unfoldable pub private_key_b64 : DeviceKeypair → Str
  private_key_b64 keys = c.base64 keys.signing_key

  unfoldable pub from_private_key_b64 : Str → Result Failure DeviceKeypair
  unfolding b64_decode
  from_private_key_b64 private_key = do
    bytes ← b64_decode c private_key
    ensure (length bytes == 32) invalid_private_key_length
    ok (record { signing_key = bytes })

  unfoldable pub sign_b64 : DeviceKeypair → List ℕ → Str
  sign_b64 keys payload = c.base64 (c.sign keys.signing_key payload)

  unfoldable pub verify_b64 : Str → List ℕ → Str → Result Failure Bool
  unfolding b64_decode
  verify_b64 public_key payload signature_b64 = do
    key ← b64_decode c public_key
    ensure (length key == 32) invalid_public_key_length
    signature ← b64_decode c signature_b64
    ensure (length signature == 64) invalid_signature_length
    ensure (c.is_verifying_key key) invalid_public_key
    ok (c.verify key payload signature)

  unfoldable pub rest_signature_payload : Str → Str → Str → List ℕ → Str
  unfolding sha256_hex to_ascii_uppercase
  rest_signature_payload method path timestamp body =
      map to_ascii_uppercase method
      ++ (newline ++ (path ++ (newline ++ (timestamp ++ (newline ++ sha256_hex c body)))))

-- The nine lines of the transport handshake.
unfoldable pub transport_handshake_payload : ℕ → Str → Str → Str → Str → Str → Str → Str → Str
unfolding u32_to_string join
transport_handshake_payload protocol_version client_device_id client_public_key daemon_device_id
      daemon_public_key binding_id client_nonce daemon_nonce =
    join newline (
      text "wispshell-transport-v1"
      ∷ u32_to_string protocol_version
      ∷ client_device_id
      ∷ client_public_key
      ∷ daemon_device_id
      ∷ daemon_public_key
      ∷ binding_id
      ∷ client_nonce
      ∷ daemon_nonce
      ∷ [])
