-- ===== src/Protocol/PairingHash.antt =====
-- The hash and the display secret of a pairing code (crates/wispshell-protocol/src/pairing_code.rs).
use wisp_shell.Prelude.{◌≡◌, map, filter, Str, Result, ok, ◌>>=◌}
use wisp_shell.Protocol.Failure.{Failure}
use wisp_shell.Protocol.Crypto.{Primitives, sha256_hex}
use wisp_shell.Protocol.PairingCode.{normalize_pairing_code, is_kept}
use wisp_shell.Protocol.PairingCode.Canonical.{to_ascii_lowercase, normalize_loose}

module _ (c : Primitives) where
  unfoldable pub pairing_code_hash : Str → Result Failure Str
  unfolding sha256_hex
  pairing_code_hash code = do normalized ← normalize_pairing_code code; ok (sha256_hex c normalized)

  unfoldable pub pairing_code_display_secret : Str → Result Failure Str
  pairing_code_display_secret code = do
    normalized ← normalize_pairing_code code
    ok (c.base64 normalized)

  -- The hash of a code is that of the code in lower case, and that of the code without its dashes
  -- and blanks.
  pub pairing_code_hash_loose :
      (code : Str)
      → (pairing_code_hash (map to_ascii_lowercase code) ≡ pairing_code_hash code)
        × (pairing_code_hash (filter is_kept code) ≡ pairing_code_hash code)
  unfolding pairing_code_hash
  pairing_code_hash_loose code = let (lower, kept) = normalize_loose code in (rw lower, rw kept)
