-- ===== src/Client/Terminal.antt =====
-- The lines of a terminal's stream in JSON: crates/wispshell-core/src/terminal.rs, and `send`, `read`
-- and the frames of client.rs. A stream is the bytes that are still to come.
pub mod RoundTrip
use wisp_shell.Prelude.{
  ℕ, zero, suc, ◌==◌, ◌&&◌, ◌||◌, leb, Option, none, some, List, [], ◌∷◌, ◌++◌, length, drop, Str,
  Result, ok, err, ok_or, ensure, ◌>>=◌, ◌>>◌, if◌then◌else◌,
}
use mathlib.Core.List.{reverse}
use wisp_shell.Protocol.Failure.{Failure, connection_closed, invalid_json, invalid_utf8}
use wisp_shell.Protocol.Messages.{ClientToAgent, AgentToClient}
use wisp_shell.Agent.Streams.{Json, read_line}

-- How many bytes the white space at the end of a text takes, of the text's bytes from the last one:
-- `char::is_whitespace`, in UTF-8.
unfoldable pub white_three : ℕ → ℕ → List ℕ → ℕ
white_three b c [] = 0
white_three b c (d ∷ before) =
    if d == 226 && c == 128 && ((leb 128 b && leb b 138) || b == 168 || b == 169 || b == 175)
    then 3
    else if d == 225 && c == 154 && b == 128
    then 3
    else if d == 226 && c == 129 && b == 159
    then 3
    else if d == 227 && c == 128 && b == 128
    then 3
    else 0

unfoldable pub white_two : ℕ → List ℕ → ℕ
unfolding white_three
white_two b [] = 0
white_two b (c ∷ before) = if c == 194 && (b == 133 || b == 160) then 2 else white_three b c before

unfoldable pub white_len : List ℕ → ℕ
unfolding white_two
white_len [] = 0
white_len (b ∷ before) = if (leb 9 b && leb b 13) || b == 32 then 1 else white_two b before

unfoldable pub drop_white : ℕ → List ℕ → List ℕ
unfolding white_len
drop_white zero bytes = bytes
drop_white (suc fuel) bytes = elim (white_len bytes) [
  | zero ↦ bytes
  | suc n ↦ drop_white fuel (drop (suc n) bytes)
]

-- `str::trim_end`: each round drops a byte at least.
unfoldable pub trim_end : Str → Str
unfolding drop_white
trim_end s = reverse (drop_white (length s) (reverse s))

module _ (j : Json) where
  unfoldable pub encode_client_frame : ClientToAgent → Str
  encode_client_frame frame = j.client_to_vec frame ++ 10 ∷ []

  unfoldable pub decode_agent_frame : Str → Result Failure AgentToClient
  unfolding trim_end
  decode_agent_frame line = ok_or (j.agent_from_slice (trim_end line)) invalid_json

  -- What is written to the stream, by `send` too.
  unfoldable pub write_client_frame : ClientToAgent → List ℕ
  write_client_frame frame = j.client_to_vec frame ++ 10 ∷ []

  -- `read_line` of a text, and the message in it.
  abbrev pub message_of : List ℕ × List ℕ → Result Failure (AgentToClient × List ℕ)
  message_of (line, rest) = do
    ensure (j.is_utf8 line) invalid_utf8
    frame ← ok_or (j.agent_from_slice (trim_end line)) invalid_json
    ok (frame, rest)

  unfoldable pub read_agent_frame : List ℕ → Result Failure (AgentToClient × List ℕ)
  unfolding read_line trim_end
  read_agent_frame [] = err connection_closed
  read_agent_frame (b ∷ bytes) = message_of (read_line (b ∷ bytes))

  -- `P2PTerminalClient::read`: nothing at the stream's end.
  unfoldable pub read : List ℕ → Result Failure (Option (AgentToClient × List ℕ))
  unfolding read_line trim_end
  read [] = ok none
  read (b ∷ bytes) = do frame ← message_of (read_line (b ∷ bytes)); ok (some frame)
