-- ===== src/Protocol/Frames/Header.antt =====
-- The long binary frame: when it is written, and what its header reads back as.
use wisp_shell.Prelude.{
  ℕ, ◌/◌, ◌%◌, ◌^◌, ◌≤◌, ◌≡◌, List, ◌∷◌, ◌++◌, length, Str, ok, err, ltb, if◌then◌else◌, arith,
}
use wisp_shell.Protocol.Failure.{session_id_too_long, payload_too_large}
use wisp_shell.Protocol.Messages.{
  binary_frame_magic, max_binary_session_id_len, max_binary_payload_len,
}
use wisp_shell.Protocol.Frames.{
  encode_binary_frame, decode_binary_header, u16_to_be_bytes, u32_to_be_bytes,
}

-- The bytes of a frame whose parts are within the limits.
abbrev pub frame_bytes : ℕ → Str → List ℕ → List ℕ
frame_bytes kind session_id payload =
    binary_frame_magic
    ∷ kind
    ∷ (u16_to_be_bytes (length session_id)
        ++ (u32_to_be_bytes (length payload) ++ (session_id ++ payload)))

-- A long frame is refused if its session id is too long, else if its payload is, and else is the
-- magic byte, the kind, the two lengths in big-endian bytes, the session id and the payload.
pub encode_binary_frame_lem :
    (kind : ℕ) (session_id : Str) (payload : List ℕ)
    → encode_binary_frame kind session_id payload ≡ (
        if ltb max_binary_session_id_len (length session_id)
        then err session_id_too_long
        else if ltb max_binary_payload_len (length payload)
        then err payload_too_large
        else ok (frame_bytes kind session_id payload))
unfolding encode_binary_frame
encode_binary_frame_lem kind session_id payload = ground arith

pub decode_binary_header_fits :
    (kind n m : ℕ)
    → n ≤ max_binary_session_id_len
    → m ≤ max_binary_payload_len
    → decode_binary_header binary_frame_magic kind
        (n / 2 ^ 8 % 2 ^ 8)
        (n % 2 ^ 8)
        (m / 2 ^ 24 % 2 ^ 8)
        (m / 2 ^ 16 % 2 ^ 8)
        (m / 2 ^ 8 % 2 ^ 8)
        (m % 2 ^ 8)
      ≡ ok (kind, n, m)
unfolding decode_binary_header
decode_binary_header_fits kind n m hn hm = ground arith

-- An accepted header begins with the magic byte, has its second byte as the kind, and announces
-- lengths within the limits.
pub decode_binary_header_bounds :
    (h0 h1 h2 h3 h4 h5 h6 h7 : ℕ) {kind n m : ℕ}
    → decode_binary_header h0 h1 h2 h3 h4 h5 h6 h7 ≡ ok (kind, n, m)
    → (h0 ≡ binary_frame_magic)
      × (kind ≡ h1)
      × (n ≤ max_binary_session_id_len)
      × (m ≤ max_binary_payload_len)
unfolding decode_binary_header
decode_binary_header_bounds h0 h1 h2 h3 h4 h5 h6 h7 e = ground arith
