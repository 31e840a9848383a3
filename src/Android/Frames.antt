-- ===== src/Android/Frames.antt =====
-- What the phone reads from the daemon, crates/wispshell-core/src/android_jni.rs. Its copies of
-- `trim_line_end` and `read_short_binary_payload_len` are the daemon's word for word.
pub mod RoundTrip
use wisp_shell.Prelude.{
  ℕ, ◌==◌, Option, none, some, List, [], ◌∷◌, Result, ok, err, ok_or, ◌>>=◌, if◌then◌else◌,
}
use wisp_shell.Protocol.Failure.{Failure, unexpected_eof, invalid_json}
use wisp_shell.Protocol.Messages.{
  AgentToClient, binary_frame_magic, short_binary_frame_magic, binary_kind_agent_output,
}
use wisp_shell.Protocol.Frames.{decode_binary_header}
use wisp_shell.Agent.Streams.{
  Json, read_exact, read_line, trim_line_end, read_short_binary_payload_len,
}

pub data AgentStreamFrame : Type 0 where
  json : AgentToClient → AgentStreamFrame
  binary_output : List ℕ → AgentStreamFrame

-- The next frame and what follows it; nothing stands for the stream's end.
abbrev pub Read : Type 0
Read = Result Failure (Option (AgentStreamFrame × List ℕ))

-- A long frame's kind: all but output reads as the stream's end.
abbrev pub of_kind : ℕ → List ℕ → List ℕ → Read
of_kind kind payload rest =
    if kind == binary_kind_agent_output then ok (some (binary_output payload, rest)) else ok none

-- After the magic byte of a long frame; the session's id may be any bytes.
unfoldable pub read_long : List ℕ → Read
unfolding read_exact
read_long (h1 ∷ h2 ∷ h3 ∷ h4 ∷ h5 ∷ h6 ∷ h7 ∷ bytes) = do
  (kind, session_id_len, payload_len) ← decode_binary_header binary_frame_magic h1 h2 h3 h4 h5 h6 h7
  (session_id, bytes') ← read_exact session_id_len bytes
  (payload, rest) ← read_exact payload_len bytes'
  of_kind kind payload rest
read_long _ = err unexpected_eof

unfoldable pub read_short : List ℕ → Read
unfolding read_short_binary_payload_len read_exact
read_short bytes = do
  (payload_len, bytes') ← read_short_binary_payload_len bytes
  (payload, rest) ← read_exact payload_len bytes'
  ok (some (binary_output payload, rest))

module _ (j : Json) where
  unfoldable pub read_message : ℕ → List ℕ → Read
  unfolding read_line trim_line_end
  read_message first bytes = do
    frame ← ok_or (j.agent_from_slice (trim_line_end (first ∷ (read_line bytes).0))) invalid_json
    ok (some (json frame, (read_line bytes).1))

  unfoldable pub read_agent_stream_frame : List ℕ → Read
  unfolding read_long read_short read_message
  read_agent_stream_frame [] = ok none
  read_agent_stream_frame (first ∷ bytes) =
      if first == binary_frame_magic
      then read_long bytes
      else if first == short_binary_frame_magic
      then read_short bytes
      else read_message first bytes
