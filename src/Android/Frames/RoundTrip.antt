-- ===== src/Android/Frames/RoundTrip.antt =====
-- What the daemon writes, the phone reads back.
use wisp_shell.Prelude.{
  ℕ, ◌≤◌, ◌≡◌, refl, sym, ap, ◌∙◌, some, List, [], ◌∷◌, ◌++◌, length, ok, arith, append_assoc,
}
use wisp_shell.Prelude.Bits.{lt_wf}
use wisp_shell.Protocol.Messages.{AgentToClient, max_binary_payload_len, short_binary_frame_magic}
use wisp_shell.Protocol.Frames.{length_bytes, encode_short_binary_frame}
use wisp_shell.Agent.Streams.{Json, trim_line_end, write_json}
use wisp_shell.Agent.Streams.RoundTrip.{
  IsLine, read_exact-append, read_short-length_bytes, read_line-append, trim_line_end-append,
}
use wisp_shell.Android.Frames.{
  binary_output, json, read_short, read_message, read_agent_stream_frame,
}

-- The phone reads each short frame back as output, and leaves what follows it.
pub read_agent-encode_short_binary_frame :
    (j : Json) (payload rest frame : List ℕ)
    → encode_short_binary_frame payload ≡ ok frame
    → read_agent_stream_frame j (frame ++ rest) ≡ ok (some (binary_output payload, rest))
unfolding read_agent_stream_frame read_short encode_short_binary_frame
read_agent-encode_short_binary_frame j payload rest frame e =
    let n = length payload in
    let bytes = length_bytes n (lt_wf.apply n) in
    let fits : n ≤ max_binary_payload_len = ground (arith, e) in
    let whole : frame ≡ short_binary_frame_magic ∷ (bytes ++ payload) = ground (arith, e) in
    let long = read_short-length_bytes n (payload ++ rest) fits in
    rw (whole, append_assoc, long, read_exact-append payload rest) refl

-- A message of the daemon is read back from its JSON line, under what the JSON is to have.
pub read_agent-write_json :
    (j : Json) (message : AgentToClient) (line rest : List ℕ)
    → j.agent_to_vec message ≡ 123 ∷ line
    → IsLine line
    → j.agent_from_slice (j.agent_to_vec message) ≡ some message
    → read_agent_stream_frame j (write_json j message ++ rest) ≡ ok (some (json message, rest))
unfolding read_agent_stream_frame read_message write_json
read_agent-write_json j message line rest e h back =
    let trimmed : trim_line_end (123 ∷ (line ++ 10 ∷ [])) ≡ 123 ∷ line =
      trim_line_end-append (123 ∷ line) (omega arith, h) in
    let same : j.agent_from_slice (123 ∷ line) ≡ some message =
      ap j.agent_from_slice (sym e) ∙ back in
    rw (e, append_assoc, read_line-append line rest h, trimmed, same) refl
