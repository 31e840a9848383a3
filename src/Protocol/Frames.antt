-- ===== src/Protocol/Frames.antt =====
-- The binary frames of crates/wispshell-protocol/src/messages.rs. `x & 0x7f` is `x % 2 ^ 7`,
-- `x >> 7` is `x / 2 ^ 7`, and `b & 0x80 == 0` on a byte tests `b / 2 ^ 7 % 2`.
pub mod Header
pub mod Length
pub mod RoundTrip
use Prim.Native.Nat.{bit_or}
use mathlib.Core.Logic.{dite}
use mathlib.Core.WellFounded.{Acc}
use native.Mathlib.Decide.{dec_lt}
use wisp_shell.Prelude.{
  ℕ, ◌+◌, ◌-◌, ◌*◌, ◌/◌, ◌%◌, ◌^◌, ◌<◌, ◌||◌, not, List, [], ◌∷◌, ◌++◌, length, Str, Result, ok,
  err, ensure, ◌>>◌, ltb, leb, ◌==◌, if◌then◌else◌, arith,
}
use wisp_shell.Prelude.Bits.{lt_wf}
use wisp_shell.Protocol.Failure.{
  Failure, session_id_too_long, payload_too_large, short_payload_too_large, invalid_magic,
  short_length_too_large, incomplete_short_length,
}
use wisp_shell.Protocol.Messages.{
  binary_frame_magic, short_binary_frame_magic, max_binary_session_id_len, max_binary_payload_len,
}

-- `u16::to_be_bytes`, `u32::to_be_bytes` and their inverses.
abbrev pub u16_to_be_bytes : ℕ → List ℕ
u16_to_be_bytes n = n / 2 ^ 8 % 2 ^ 8 ∷ n % 2 ^ 8 ∷ []

abbrev pub u32_to_be_bytes : ℕ → List ℕ
u32_to_be_bytes n = n / 2 ^ 24 % 2 ^ 8 ∷ n / 2 ^ 16 % 2 ^ 8 ∷ n / 2 ^ 8 % 2 ^ 8 ∷ n % 2 ^ 8 ∷ []

abbrev pub u16_from_be_bytes : ℕ → ℕ → ℕ
u16_from_be_bytes a b = a * 2 ^ 8 + b

abbrev pub u32_from_be_bytes : ℕ → ℕ → ℕ → ℕ → ℕ
u32_from_be_bytes a b c d = a * 2 ^ 24 + b * 2 ^ 16 + c * 2 ^ 8 + d

unfoldable pub encode_binary_frame : ℕ → Str → List ℕ → Result Failure (List ℕ)
encode_binary_frame kind session_id payload = do
  ensure
      (not
        (ltb (2 ^ 16 - 1) (length session_id) || ltb max_binary_session_id_len (length session_id)))
      session_id_too_long
  ensure (not (ltb (2 ^ 32 - 1) (length payload) || ltb max_binary_payload_len (length payload)))
      payload_too_large
  let session_id_len = length session_id % 2 ^ 16
  let payload_len = length payload % 2 ^ 32
  ok (
      binary_frame_magic
      ∷ kind
      ∷ (u16_to_be_bytes session_id_len
          ++ (u32_to_be_bytes payload_len ++ (session_id ++ payload))))

-- The header is an array of eight bytes.
unfoldable pub decode_binary_header : ℕ → ℕ → ℕ → ℕ → ℕ → ℕ → ℕ → ℕ → Result Failure (ℕ × ℕ × ℕ)
decode_binary_header h0 h1 h2 h3 h4 h5 h6 h7 = do
  ensure (h0 == binary_frame_magic) invalid_magic
  let session_id_len = u16_from_be_bytes h2 h3
  let payload_len = u32_from_be_bytes h4 h5 h6 h7
  ensure (not (ltb max_binary_session_id_len session_id_len)) session_id_too_long
  ensure (not (ltb max_binary_payload_len payload_len)) payload_too_large
  ok (h1, session_id_len, payload_len)

pub shift_falls : (n : ℕ) → 0 < n / 2 ^ 7 → n / 2 ^ 7 < n
shift_falls n h = omega arith

-- The `loop` that writes the length, seven bits a byte, lowest first.
unfoldable pub length_bytes : (n : ℕ) → Acc ◌<◌ n → List ℕ
length_bytes n (Acc.intro _ smaller) =
    dite (dec_lt 0 (n / 2 ^ 7))
      (λ more.
        bit_or (n % 2 ^ 7 % 2 ^ 8) 0x80
        ∷ length_bytes (n / 2 ^ 7) (smaller (n / 2 ^ 7) (shift_falls n more)))
      (λ _. n % 2 ^ 7 % 2 ^ 8 ∷ [])

unfoldable pub encode_short_binary_frame : List ℕ → Result Failure (List ℕ)
encode_short_binary_frame payload = do
  ensure (not (ltb max_binary_payload_len (length payload))) short_payload_too_large
  ok (
      short_binary_frame_magic
      ∷ (length_bytes (length payload) (lt_wf.apply (length payload)) ++ payload))

-- One round of the length decoders: the value so far with the byte's seven bits put in.
abbrev pub add_bits : ℕ → ℕ → ℕ → ℕ
add_bits value byte index = bit_or value (byte % 2 ^ 7 * 2 ^ (index * 7))

unfoldable pub decode_short_loop : ℕ → ℕ → List ℕ → Result Failure (ℕ × ℕ)
decode_short_loop index value [] = err incomplete_short_length
decode_short_loop index value (byte ∷ bytes) =
    let value' = add_bits value byte index in
    let more = decode_short_loop (index + 1) value' bytes in
    if leb 4 index
    then err short_length_too_large
    else if byte / 2 ^ 7 % 2 == 0
    then (if ltb max_binary_payload_len value'
        then err short_payload_too_large
        else ok (value', index + 1))
    else more

unfoldable pub decode_short_binary_payload_len : List ℕ → Result Failure (ℕ × ℕ)
unfolding decode_short_loop
decode_short_binary_payload_len bytes = decode_short_loop 0 0 bytes

unfoldable pub varint_len_loop : (value : ℕ) → ℕ → Acc ◌<◌ value → ℕ
varint_len_loop value len (Acc.intro _ smaller) =
    dite (dec_lt 0 (value / 2 ^ 7))
      (λ more.
        varint_len_loop (value / 2 ^ 7) (len + 1)
          (smaller (value / 2 ^ 7) (shift_falls value more)))
      (λ _. len)

unfoldable pub varint_len : ℕ → ℕ
varint_len value = varint_len_loop value 1 (lt_wf.apply value)
