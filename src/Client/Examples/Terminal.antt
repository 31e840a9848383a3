-- ===== src/Client/Examples/Terminal.antt =====
-- A line that the client reads.
use wisp_shell.Prelude.{◌≡◌, refl, true, none, some, [], ◌∷◌, ◌++◌, text, ok, arith}
use wisp_shell.Protocol.Messages.{pong}
use wisp_shell.Agent.Streams.{Json, write_json}
use wisp_shell.Client.Terminal.{read_agent_frame, read}
use wisp_shell.Client.Terminal.RoundTrip.{IsObject, read_agent_frame-write_json}

abbrev names : Json
names = record {
  client_to_vec = λ m. [];
  client_from_slice = λ s. none;
  agent_to_vec = λ m. text "{p}";
  agent_from_slice = λ s. some (pong (text "n"));
  is_utf8 = λ s. true;
}

pong-IsObject : IsObject names (pong (text "n"))
pong-IsObject = record {
  text = text "{p";
  braced = refl;
  plain = omega arith;
  utf8 = refl;
  back = refl;
}

read_agent_frame-write_json_example :
    (read_agent_frame names (write_json names (pong (text "n")) ++ text "rest")
      ≡ ok (pong (text "n"), text "rest"))
    × (read names (write_json names (pong (text "n")) ++ text "rest")
        ≡ ok (some (pong (text "n"), text "rest")))
read_agent_frame-write_json_example =
    read_agent_frame-write_json names (pong (text "n")) (text "rest") pong-IsObject

reads_lines :
    read_agent_frame names (text "{p}" ++ 13 ∷ 10 ∷ text "more") ≡ ok (pong (text "n"), text "more")
unfolding read_agent_frame
reads_lines = refl
