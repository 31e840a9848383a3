-- ===== src/Agent/Streams.antt =====
-- Reading and writing frames, components/agent/src/transport_stream.rs. A stream is the bytes that
-- are still to come, the last of them followed by its end; `await` on it is left out, for a frame is
-- the same in however many pieces it arrives. JSON is serde_json's and UTF-8 the standard library's.
pub mod RoundTrip
use wisp_shell.Prelude.{
  ℕ, zero, suc, ◌+◌, ◌/◌, ◌%◌, ◌^◌, Option, none, some, List, [], ◌∷◌, ◌++◌, length, take, drop,
  Str, Bool, Result, ok, err, ok_or, ensure, ◌>>=◌, ◌>>◌, ltb, leb, ◌==◌, not, if◌then◌else◌,
}
use wisp_shell.Protocol.Failure.{
  Failure, unexpected_eof, invalid_utf8, invalid_json, short_payload_too_large,
  short_length_too_large,
}
use wisp_shell.Protocol.Messages.{
  ClientToAgent, AgentToClient, BinaryFrame, ShortBinaryFrame, binary_frame_magic,
  short_binary_frame_magic, max_binary_payload_len,
}
use wisp_shell.Protocol.Frames.{
  decode_binary_header, encode_binary_frame, encode_short_binary_frame, add_bits,
}

pub record Json : Type 0 where
  pub client_to_vec : ClientToAgent → List ℕ
  pub client_from_slice : List ℕ → Option ClientToAgent
  pub agent_to_vec : AgentToClient → List ℕ
  pub agent_from_slice : List ℕ → Option AgentToClient
  pub is_utf8 : List ℕ → Bool

pub data ClientStreamFrame : Type 0 where
  json : ClientToAgent → ClientStreamFrame
  binary : BinaryFrame → ClientStreamFrame
  short_binary : ShortBinaryFrame → ClientStreamFrame

-- `read_exact` of `n` bytes: them, and what follows.
unfoldable pub read_exact : ℕ → List ℕ → Result Failure (List ℕ × List ℕ)
read_exact n bytes =
    if leb n (length bytes) then ok (take n bytes, drop n bytes) else err unexpected_eof

-- The rounds of `for index in 0..4` that are left.
unfoldable pub read_len_loop : ℕ → ℕ → ℕ → List ℕ → Result Failure (ℕ × List ℕ)
read_len_loop zero index value bytes = err short_length_too_large
read_len_loop (suc left) index value [] = err unexpected_eof
read_len_loop (suc left) index value (byte ∷ bytes) =
    let value' = add_bits value byte index in
    let more = read_len_loop left (index + 1) value' bytes in
    if byte / 2 ^ 7 % 2 == 0
    then (if ltb max_binary_payload_len value'
        then err short_payload_too_large
        else ok (value', bytes))
    else more

unfoldable pub read_short_binary_payload_len : List ℕ → Result Failure (ℕ × List ℕ)
unfolding read_len_loop
read_short_binary_payload_len bytes = read_len_loop 4 0 0 bytes

-- `read_until(b'\n')`: the line with its end, and what follows.
unfoldable pub read_line : List ℕ → List ℕ × List ℕ
read_line [] = ([], [])
read_line (b ∷ bytes) =
    let (line, rest) = read_line bytes in if b == 10 then (b ∷ [], bytes) else (b ∷ line, rest)

unfoldable pub strip_suffix : ℕ → List ℕ → Option (List ℕ)
strip_suffix b [] = none
strip_suffix b (x ∷ []) = if x == b then some [] else none
strip_suffix b (x ∷ (y ∷ ys)) = elim (strip_suffix b (y ∷ ys)) [
  | none ↦ none
  | some line ↦ some (x ∷ line)
]

unfoldable pub trim_line_end : List ℕ → List ℕ
unfolding strip_suffix
trim_line_end line = elim (strip_suffix 10 line) [
  | none ↦ line
  | some short ↦ elim (strip_suffix 13 short) [ none ↦ short | some shorter ↦ shorter ]
]

module _ (j : Json) where
  -- After the magic byte of a long frame.
  unfoldable pub read_binary : List ℕ → Result Failure (Option (ClientStreamFrame × List ℕ))
  unfolding read_exact
  read_binary (h1 ∷ h2 ∷ h3 ∷ h4 ∷ h5 ∷ h6 ∷ h7 ∷ bytes) = do
    (kind, session_id_len, payload_len) ←
        decode_binary_header binary_frame_magic h1 h2 h3 h4 h5 h6 h7
    (session_id, bytes') ← read_exact session_id_len bytes
    ensure (j.is_utf8 session_id) invalid_utf8
    (payload, rest) ← read_exact payload_len bytes'
    ok (some (binary (record { kind = kind; session_id = session_id; payload = payload }), rest))
  read_binary _ = err unexpected_eof

  unfoldable pub read_short_binary : List ℕ → Result Failure (Option (ClientStreamFrame × List ℕ))
  unfolding read_short_binary_payload_len read_exact
  read_short_binary bytes = do
    (payload_len, bytes') ← read_short_binary_payload_len bytes
    (payload, rest) ← read_exact payload_len bytes'
    ok (some (short_binary (record { payload = payload }), rest))

  -- The line from its first byte, whichever that is, to the next newline.
  unfoldable pub read_json : ℕ → List ℕ → Result Failure (Option (ClientStreamFrame × List ℕ))
  unfolding read_line trim_line_end
  read_json first bytes = do
    frame ← ok_or (j.client_from_slice (trim_line_end (first ∷ (read_line bytes).0))) invalid_json
    ok (some (json frame, (read_line bytes).1))

  -- The next frame and what follows it, or nothing at the stream's end.
  unfoldable pub read_client_stream_frame :
      List ℕ → Result Failure (Option (ClientStreamFrame × List ℕ))
  unfolding read_binary read_short_binary read_json
  read_client_stream_frame [] = ok none
  read_client_stream_frame (first ∷ bytes) =
      if first == binary_frame_magic
      then read_binary bytes
      else if first == short_binary_frame_magic
      then read_short_binary bytes
      else read_json first bytes

  -- The line that `write_json` sends.
  unfoldable pub write_json : AgentToClient → List ℕ
  write_json frame = j.agent_to_vec frame ++ 10 ∷ []
