-- ===== src/Protocol/Crypto/Proofs.antt =====
-- Device ids and pairing proofs.
use wisp_shell.Prelude.{
  ℕ, ◌≡◌, refl, true, List, ◌++◌, length, take, length-take, ◌↔◌, Str, str_eq_iff, ok, arith,
  Option, some, none,
}
use wisp_shell.Protocol.Crypto.{
  Primitives, IsLawful, device_id_from_public_key, pairing_proof, verify_pairing_proof,
}

module _ {c : Primitives} (lawful : IsLawful c) where
  length-digest_prefix : (bytes : List ℕ) → length (take 32 (c.base64 (c.sha256 bytes))) ≡ 32
  length-digest_prefix bytes =
      length-take 32 (c.base64 (c.sha256 bytes))
        (omega (arith, lawful.length-base64 (c.sha256 bytes), lawful.length-sha256 bytes))

  -- With lawful primitives, a device id that is made from a key has 32 characters.
  pub length-device_id :
      (public_key_b64 : Str) {id : Str}
      → device_id_from_public_key c public_key_b64 ≡ ok id
      → length id ≡ 32
  unfolding device_id_from_public_key
  length-device_id public_key_b64 {id} e = decoded (c.base64_decode public_key_b64) refl
    where
      decoded : (o : Option (List ℕ)) → c.base64_decode public_key_b64 ≡ o → length id ≡ 32
      decoded none p = absurd (ground (arith, p))
      decoded (some bytes) p = ground (arith, p, length-digest_prefix bytes)

module _ (c : Primitives) where
  -- With a secret that is valid base64, a proof is accepted exactly if it is the one made with the
  -- secret.
  pub verify_pairing_proof_iff :
      (secret pair_id daemon_id client_id client_key proof : Str) {key : List ℕ}
      → c.base64_decode secret ≡ some key
      → (verify_pairing_proof c secret pair_id daemon_id client_id client_key proof ≡ ok true)
        ↔ (pairing_proof c secret pair_id daemon_id client_id client_key ≡ ok proof)
  unfolding verify_pairing_proof
  verify_pairing_proof_iff secret pair_id daemon_id client_id client_key proof {key} e =
      let tag =
        c.base64 (c.hmac_sha256 key (pair_id ++ (daemon_id ++ (client_id ++ client_key)))) in
      ground (arith, e, str_eq_iff tag proof)
