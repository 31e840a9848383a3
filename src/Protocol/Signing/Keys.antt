-- ===== src/Protocol/Signing/Keys.antt =====
-- Key material survives its encoding, and a signature verifies under the signer's public key.
use wisp_shell.Prelude.{ℕ, ◌≡◌, true, List, length, ok, arith}
use wisp_shell.Protocol.Crypto.{Primitives, IsLawful}
use wisp_shell.Protocol.Signing.{
  DeviceKeypair, public_key_b64, private_key_b64, from_private_key_b64, sign_b64, verify_b64,
}

module _ {c : Primitives} (lawful : IsLawful c) where
  -- With lawful primitives, what a key signs verifies under its public key.
  pub verify-sign_b64 :
      (keys : DeviceKeypair) (payload : List ℕ)
      → verify_b64 c (public_key_b64 c keys) payload (sign_b64 c keys payload) ≡ ok true
  unfolding verify_b64 public_key_b64 sign_b64
  verify-sign_b64 keys payload = rw (
    lawful.decode-base64 (c.verifying_key keys.signing_key),
    lawful.decode-base64 (c.sign keys.signing_key payload),
    lawful.length-verifying_key keys.signing_key,
    lawful.length-sign keys.signing_key payload,
    lawful.verifying_key_valid keys.signing_key,
    lawful.verify-sign keys.signing_key payload,
  )

  -- With lawful primitives, a private key of 32 bytes is restored from its text.
  pub restore-private_key :
      (keys : DeviceKeypair)
      → length keys.signing_key ≡ 32
      → from_private_key_b64 c (private_key_b64 c keys) ≡ ok keys
  unfolding from_private_key_b64 private_key_b64
  restore-private_key keys long = rw (lawful.decode-base64 keys.signing_key) (ground (arith, long))
