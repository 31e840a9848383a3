-- ===== src/Protocol/Examples.antt =====
-- The protocol's theorems at concrete inputs, and runs of its functions.
use wisp_shell.Prelude.{
  ℕ, ◌≡◌, ◌≤◌, ◌<◌, ◌+◌, refl, Bool, true, false, Option, none, some, List, [], ◌∷◌, ◌++◌, Str,
  text, Result, ok, err, arith, length, map, filter, All, if◌then◌else◌, ltb, ◌↔◌,
}
use wisp_shell.Protocol.Frames.{decode_short_binary_payload_len, decode_binary_header}
use wisp_shell.Protocol.PairingCode.{encode_pairing_code, is_kept}
use wisp_shell.Protocol.PairingCode.Value.{IsByte}
use wisp_shell.Protocol.Crypto.{device_id_from_public_key}
use wisp_shell.Protocol.Crypto.Toy.{toy}
use wisp_shell.Protocol.Signing.{DeviceKeypair}
use wisp_shell.Protocol.Signing.Transcript.{Agreement}

abbrev abc : List ℕ
abc = text "abc"

reads_300 : decode_short_binary_payload_len (172 ∷ 2 ∷ abc) ≡ ok (300, 2)
unfolding decode_short_binary_payload_len
reads_300 = refl

abbrev one : ℕ
one = 1

reads_header : decode_binary_header 0x1e 1 0 3 0 0 1 44 ≡ ok (1, 3, 300)
unfolding decode_binary_header
reads_header = refl

abbrev typed : Str
typed = text "wisp 234 567 89a bcde"

abbrev shown : Str
shown = text "WISP-234-567-89A-BCDE"

abbrev bytes : List ℕ
bytes = 1 ∷ 2 ∷ 3 ∷ 4 ∷ 5 ∷ 6 ∷ 7 ∷ 255 ∷ []

bytes_small : All IsByte bytes
bytes_small = omega arith

abbrev device_key : Str
device_key = text "device key"

abbrev key_id : {E : Type 0} → Result E Str → Str
key_id (ok s) = s
key_id (err e) = []

abbrev device : Str
device = key_id (device_id_from_public_key toy device_key)

identifies : device_id_from_public_key toy device_key ≡ ok device
unfolding device_id_from_public_key toy
identifies = refl

abbrev secret : Str
secret = toy.base64 abc

decodes : toy.base64_decode secret ≡ some abc
unfolding toy
decodes = refl

abbrev keys : DeviceKeypair
keys = record { signing_key = key }
  where
    key : List ℕ
    key =
        1 ∷ 2 ∷ 3 ∷ 4 ∷ 5 ∷ 6 ∷ 7 ∷ 8 ∷ 1 ∷ 2 ∷ 3 ∷ 4 ∷ 5 ∷ 6 ∷ 7 ∷ 8 ∷ 1 ∷ 2 ∷ 3 ∷ 4 ∷ 5 ∷ 6 ∷ 7
        ∷ 8 ∷ 1 ∷ 2 ∷ 3 ∷ 4 ∷ 5 ∷ 6 ∷ 7 ∷ 8 ∷ []

abbrev agreement : Agreement
agreement = record {
  version = 1;
  client_device_id = text "c";
  client_public_key = text "k";
  daemon_device_id = text "d";
  daemon_public_key = text "e";
  binding_id = text "b";
  client_nonce = text "n";
  daemon_nonce = text "m";
}
