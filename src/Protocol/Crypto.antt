-- ===== src/Protocol/Crypto.antt =====
-- crates/wispshell-protocol/src/crypto.rs. The primitives are the crates base64, sha2, hmac and
-- ed25519-dalek: a parameter, with what their documentation promises as laws.
pub mod Toy
pub mod Proofs
use wisp_shell.Prelude.{
  ℕ, ◌+◌, ◌*◌, ◌/◌, ◌%◌, ◌≡◌, Bool, true, Option, some, List, [], ◌∷◌, ◌++◌, length, slice, Str,
  str_eq, Result, ok, ok_or, ◌>>=◌, ltb, if◌then◌else◌,
}
use wisp_shell.Protocol.Failure.{Failure, invalid_base64}

pub record Primitives : Type 0 where
  -- URL_SAFE_NO_PAD.encode and decode
  pub base64 : List ℕ → Str
  pub base64_decode : Str → Option (List ℕ)
  -- Sha256::digest, and Hmac<Sha256> over one key (any length of key is accepted)
  pub sha256 : List ℕ → List ℕ
  pub hmac_sha256 : List ℕ → List ℕ → List ℕ
  -- ed25519: the public key of a signing key, `sign`, `VerifyingKey::from_bytes(..).is_ok()`, `verify`
  pub verifying_key : List ℕ → List ℕ
  pub sign : List ℕ → List ℕ → List ℕ
  pub is_verifying_key : List ℕ → Bool
  pub verify : List ℕ → List ℕ → List ℕ → Bool

pub record IsLawful (c : Primitives) : Type 0 where
  pub decode-base64 : (bytes : List ℕ) → c.base64_decode (c.base64 bytes) ≡ some bytes
  pub length-base64 : (bytes : List ℕ) → length (c.base64 bytes) ≡ (4 * length bytes + 2) / 3
  pub length-sha256 : (bytes : List ℕ) → length (c.sha256 bytes) ≡ 32
  pub length-verifying_key : (key : List ℕ) → length (c.verifying_key key) ≡ 32
  pub length-sign : (key payload : List ℕ) → length (c.sign key payload) ≡ 64
  pub verifying_key_valid : (key : List ℕ) → c.is_verifying_key (c.verifying_key key) ≡ true
  pub verify-sign :
      (key payload : List ℕ) → c.verify (c.verifying_key key) payload (c.sign key payload) ≡ true

-- `{b:02x}` of each byte.
unfoldable pub hex_digit : ℕ → ℕ
hex_digit d = if ltb d 10 then 48 + d else 87 + d

unfoldable pub hex : List ℕ → Str
unfolding hex_digit
hex [] = []
hex (b ∷ bytes) = hex_digit (b / 16) ∷ hex_digit (b % 16) ∷ hex bytes

module _ (c : Primitives) where
  unfoldable pub b64_decode : Str → Result Failure (List ℕ)
  b64_decode input = ok_or (c.base64_decode input) invalid_base64

  unfoldable pub sha256_hex : List ℕ → Str
  unfolding hex
  sha256_hex bytes = hex (c.sha256 bytes)

  unfoldable pub device_id_from_public_key : Str → Result Failure Str
  unfolding b64_decode
  device_id_from_public_key public_key_b64 = do
    public_key ← b64_decode public_key_b64
    ok (slice 0 32 (c.base64 (c.sha256 public_key)))

  unfoldable pub pairing_proof : Str → Str → Str → Str → Str → Result Failure Str
  unfolding b64_decode
  pairing_proof secret_b64 pair_id daemon_id client_device_id client_public_key = do
    secret ← b64_decode secret_b64
    ok (
        c.base64 (
          c.hmac_sha256 secret (pair_id ++ (daemon_id ++ (client_device_id ++ client_public_key)))))

  unfoldable pub verify_pairing_proof : Str → Str → Str → Str → Str → Str → Result Failure Bool
  unfolding pairing_proof str_eq
  verify_pairing_proof secret_b64 pair_id daemon_id client_device_id client_public_key proof = do
    expected ← pairing_proof secret_b64 pair_id daemon_id client_device_id client_public_key
    ok (str_eq expected proof)
