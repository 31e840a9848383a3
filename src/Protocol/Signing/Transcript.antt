-- ===== src/Protocol/Signing/Transcript.antt =====
-- The handshake transcript determines each of its fields, where no field holds a newline.
use wisp_shell.Prelude.{ℕ, ◌+◌, ◌-◌, ◌*◌, ◌^◌, ◌<◌, ◌≢◌, List, [], ◌∷◌, All, Str, text}
use wisp_shell.Protocol.Signing.{u32_to_string, transport_handshake_payload}

-- No newline in a line.
abbrev pub IsLine : Str → Type 0
IsLine s = All (λ b. b ≢ 10) s

-- The number that decimal digits spell.
read_decimal : ℕ → Str → ℕ
read_decimal acc [] = acc
read_decimal acc (d ∷ s) = read_decimal (acc * 10 + (d - 48)) s

-- What is agreed on by a handshake.
pub record Agreement : Type 0 where
  pub version : ℕ
  pub client_device_id : Str
  pub client_public_key : Str
  pub daemon_device_id : Str
  pub daemon_public_key : Str
  pub binding_id : Str
  pub client_nonce : Str
  pub daemon_nonce : Str

abbrev lines_of : Agreement → List Str
lines_of a =
    text "wispshell-transport-v1"
    ∷ u32_to_string a.version
    ∷ a.client_device_id
    ∷ a.client_public_key
    ∷ a.daemon_device_id
    ∷ a.daemon_public_key
    ∷ a.binding_id
    ∷ a.client_nonce
    ∷ a.daemon_nonce
    ∷ []

abbrev pub transcript : Agreement → Str
transcript a =
    transport_handshake_payload a.version a.client_device_id a.client_public_key a.daemon_device_id
      a.daemon_public_key a.binding_id a.client_nonce a.daemon_nonce

-- The version is a `u32`, and no text field holds a newline.
pub record IsPlain (a : Agreement) : Type 0 where
  pub version : a.version < 2 ^ 32
  pub client_device_id : IsLine a.client_device_id
  pub client_public_key : IsLine a.client_public_key
  pub daemon_device_id : IsLine a.daemon_device_id
  pub daemon_public_key : IsLine a.daemon_public_key
  pub binding_id : IsLine a.binding_id
  pub client_nonce : IsLine a.client_nonce
  pub daemon_nonce : IsLine a.daemon_nonce
