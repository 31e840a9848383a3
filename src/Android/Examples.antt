-- ===== src/Android/Examples.antt =====
-- The phone's theorems at concrete inputs.
mod Native
use wisp_shell.Prelude.{
  ℕ, ◌≡◌, ◌≢◌, ◌+◌, ◌<◌, ◌^◌, ◌++◌, ◌==◌, refl, true, false, none, some, List, [], ◌∷◌, Str, text,
  map, length, Result, ok, err, All, arith, if◌then◌else◌,
}
use wisp_shell.Protocol.Failure.{terminal_not_found}
use wisp_shell.Protocol.Messages.{output}
use wisp_shell.Agent.Session.{Pty, SessionManager, SessionRuntime, input}
use wisp_shell.Agent.Streams.{Json}
use wisp_shell.Agent.Serve.{Standard, Connection, Surroundings, opened}
use wisp_shell.Android.Terminal.{Terminal, resize_to}
use wisp_shell.Android.EndToEnd.{IsShown, write_output-IsShown, IsTyped, on_command-IsTyped}
use wisp_shell.Android.Bridge.{
  pos, Bridge, find, open_terminal, send_terminal_input, resize_terminal, close_terminal,
}
use wisp_shell.Android.Bridge.Handles.{
  IsIssued, open_terminal-find, close_terminal-find, resize_terminal-exact,
}

abbrev id : Str
id = text "s1"

abbrev phone : Str
phone = text "phone"

abbrev abc : List ℕ
abc = text "abc"

abbrev pty : Pty (List ℕ)
pty = record {
  openpty = λ shell cols rows. some [];
  write_all = λ written bytes. some (written ++ bytes);
  set_size = λ written cols rows. some written;
}

abbrev standard : Standard
standard = record { encode = λ bytes. bytes; decode = λ s. some s }

-- JSON of the one message that this run sends.
abbrev names : Json
names = record {
  client_to_vec = λ m. [];
  client_from_slice = λ s. none;
  agent_to_vec = λ m. 123 ∷ text "o}";
  agent_from_slice = λ s. some (output id abc);
  is_utf8 = λ s. true;
}

abbrev work_session : SessionRuntime (List ℕ)
work_session = record {
  id = id;
  name = text "work";
  created_at = 1;
  last_active_at = 1;
  cols = 80;
  rows = 24;
  scrollback = [];
  attached_clients = phone ∷ [];
  input_owner = some phone;
  pty = [];
}

abbrev with_pty : List ℕ → SessionManager (List ℕ)
with_pty written = record {
  inner = (text "work", record work_session { pty = written }) ∷ [];
  shell = text "sh";
  scrollback_bytes = 100;
  scrollback_replay_bytes = 50;
}

abbrev connection : Connection (List ℕ)
connection = record (opened (with_pty [])) { attached_session_id = some id }

abbrev alone : Surroundings (List ℕ)
alone = record { uuid = λ n m. id; now = λ n. n; others = λ n m. m; output = λ n. [] }

abbrev terminal : Terminal
terminal = record {
  session_id = some id;
  last_pong_ms = 0;
  attached = true;
  calls = [];
  commands = [];
  receiving = true;
  peer_open = true;
  written = [];
  nonce_counter = 0;
}

write_output-IsShown_example : IsShown names standard connection id abc [] terminal 7
write_output-IsShown_example =
    write_output-IsShown names standard connection id abc (text "o}") [] terminal 7 refl
      (omega arith) refl (omega arith) refl refl

types : input pty (with_pty []) phone id abc ≡ ok (with_pty abc)
unfolding input wisp_shell.Prelude.str_eq wisp_shell.Prelude.HashMap.modify
types = refl

on_command-IsTyped_example :
    IsTyped names standard pty phone alone terminal connection abc [] 3 0 (with_pty abc)
unfolding wisp_shell.Agent.Serve.Loop.delivered
on_command-IsTyped_example =
    on_command-IsTyped names standard pty phone alone terminal connection id id abc [] 3 0
      (with_pty abc) refl refl (omega arith) refl types

abbrev two_open : Bridge
two_open = record { next_handle = 3; terminals = (1, terminal) ∷ (2, terminal) ∷ [] }

abbrev resized : Bridge
resized = record {
  next_handle = 3;
  terminals = (1, record terminal { commands = resize_to 100 40 ∷ [] }) ∷ (2, terminal) ∷ [];
}

resizes : resize_terminal two_open 1 (pos 100) (pos 40) ≡ ok resized
unfolding resize_terminal
resizes = refl

resize_terminal-exact_example :
    (c r : ℕ) × (t : Terminal) × (pos 100 ≡ pos c)
    × (pos 40 ≡ pos r)
    × (c < 2 ^ 16)
    × (r < 2 ^ 16)
    × (find two_open.terminals 1 ≡ some t)
    × (find resized.terminals 1 ≡ some (record t { commands = t.commands ++ resize_to c r ∷ [] }))
resize_terminal-exact_example = resize_terminal-exact two_open resized 1 (pos 100) (pos 40) resizes
