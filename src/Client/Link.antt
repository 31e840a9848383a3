-- ===== src/Client/Link.antt =====
-- The link in the daemon's QR code: `print_pairing` of components/agent/src/pairing.rs writes it, and
-- `parse_pairing_uri` of crates/wispshell-core/src/pairing.rs reads it. The parsing of a URL is the
-- url crate's, the text of a time chrono's, the escapes urlencoding's. `now` is `Utc::now()`.
use wisp_shell.Prelude.{
  ℕ, ◌+◌, ◌*◌, ◌-◌, ◌<◌, ◌≡◌, ◌&&◌, not, ◌==◌, Bool, false, Option, none, some, List, [], ◌∷◌, ◌++◌,
  map, take, drop, Str, text, str_eq, Result, ok, ok_or, ensure, ◌>>=◌, ◌>>◌, leb, if◌then◌else◌,
  arith,
}
use wisp_shell.Protocol.Failure.{
  Failure, invalid_pairing_uri, missing_pairing_field, unsupported_pairing_version, invalid_number,
  pairing_uri_expired, invalid_time,
}
use wisp_shell.Protocol.Messages.{PairingPayload}
use wisp_shell.Protocol.PairingCode.{to_ascii_uppercase}

-- What is read of a `url::Url`; the query's pairs are decoded.
pub record Url : Type 0 where
  pub scheme : Str
  pub host_str : Option Str
  pub query_pairs : List (Str × Str)

pub record Crates : Type 0 where
  pub parse : Str → Option Url
  pub encode : Str → Str
  pub to_rfc3339 : ℕ → Str
  pub parse_from_rfc3339 : Str → Option ℕ

-- The digits that are left of a `u8`.
unfoldable pub u8_digits : ℕ → Str → Option ℕ
u8_digits value [] = some value
u8_digits value (ch ∷ rest) =
    let value' = value * 10 + (ch - 48) in
    let more = u8_digits value' rest in
    if leb 48 ch && leb ch 57 && leb value' 255 then more else none

-- `parse::<u8>()`: a plus may stand in front.
unfoldable pub u8_from_str : Str → Option ℕ
unfolding u8_digits
u8_from_str [] = none
u8_from_str (ch ∷ []) = u8_digits 0 (ch ∷ [])
u8_from_str (ch ∷ (d ∷ rest)) =
    if ch == 43 then u8_digits 0 (d ∷ rest) else u8_digits 0 (ch ∷ (d ∷ rest))

-- `.find(|(k, _)| k == key)`
unfoldable pub find_pair : List (Str × Str) → Str → Option Str
find_pair [] key = none
find_pair ((k, v) ∷ pairs) key = if str_eq k key then some v else find_pair pairs key

abbrev pub field : Url → Str → Result Failure Str
field url key = ok_or (find_pair url.query_pairs key) missing_pairing_field

abbrev pub is_pair : Option Str → Bool
is_pair host = elim host [ none ↦ false | some h ↦ str_eq h (text "pair") ]

unfoldable pub parse_pairing_uri : Crates → Str → ℕ → Result Failure PairingPayload
unfolding u8_from_str find_pair
parse_pairing_uri c uri now = do
  url ← ok_or (c.parse uri) invalid_pairing_uri
  ensure (str_eq url.scheme (text "wispshell") && is_pair url.host_str) invalid_pairing_uri
  v_text ← field url (text "v")
  v ← ok_or (u8_from_str v_text) invalid_number
  ensure (v == 1) unsupported_pairing_version
  expires_text ← field url (text "expires")
  expires ← ok_or (c.parse_from_rfc3339 expires_text) invalid_time
  ensure (not (leb expires now)) pairing_uri_expired
  cloud ← field url (text "cloud")
  pair_id ← field url (text "pair_id")
  daemon_id ← field url (text "daemon_id")
  daemon_pub ← field url (text "daemon_pub")
  secret ← field url (text "secret")
  ok (record {
    v = v;
    cloud = cloud;
    pair_id = pair_id;
    daemon_id = daemon_id;
    daemon_pub = daemon_pub;
    secret = secret;
    expires = expires;
  })

-- The link that `print_pairing` shows.
unfoldable pub pairing_uri :
    Crates → (cloud_url pair_id device_id public_key secret : Str) → (expires : ℕ) → Str
pairing_uri c cloud_url pair_id device_id public_key secret expires =
    text "wispshell://pair?v=1&cloud="
    ++ (c.encode cloud_url
        ++ (text "&pair_id="
            ++ (pair_id
                ++ (text "&daemon_id="
                    ++ (device_id
                        ++ (text "&daemon_pub="
                            ++ (public_key
                                ++ (text "&secret="
                                    ++ (secret
                                        ++ (text "&expires="
                                            ++ c.encode (c.to_rfc3339 expires)))))))))))

-- The code beside it; the pair's id has 22 characters.
unfoldable pub short_code : Str → Str
unfolding to_ascii_uppercase
short_code pair_id =
    map to_ascii_uppercase (take 4 pair_id ++ (text "-" ++ take 4 (drop 4 pair_id)))

-- What the url crate is to make of a link: its parts, the escapes taken back.
abbrev pub linked : Crates → (cloud_url pair_id device_id public_key secret : Str) → ℕ → Url
linked c cloud_url pair_id device_id public_key secret expires = record {
  scheme = text "wispshell";
  host_str = some (text "pair");
  query_pairs =
      (text "v", text "1")
      ∷ (text "cloud", cloud_url)
      ∷ (text "pair_id", pair_id)
      ∷ (text "daemon_id", device_id)
      ∷ (text "daemon_pub", public_key)
      ∷ (text "secret", secret)
      ∷ (text "expires", c.to_rfc3339 expires)
      ∷ [];
}

-- A link that was accepted has version 1 and expires later.
parse_pairing_uri_unexpired :
    (c : Crates) (uri : Str) (now : ℕ) (payload : PairingPayload)
    → parse_pairing_uri c uri now ≡ ok payload
    → (payload.v ≡ 1) × (now < payload.expires)
unfolding parse_pairing_uri
parse_pairing_uri_unexpired c uri now payload e = (ground (arith, e), ground (arith, e))
