-- ===== src/Android/Terminal.antt =====
-- One open terminal of the phone: what its tasks share, and the body of each task's loop
-- (crates/wispshell-core/src/android_jni.rs, `connectP2pTerminal`). The readings of `now_millis`
-- are arguments. `peer_open` tells whether the transport still takes bytes.
use wisp_shell.Prelude.{
  ℕ, ◌+◌, ◌-◌, ◌%◌, ◌^◌, Bool, true, false, Option, none, some, List, [], ◌∷◌, ◌++◌, Str, text,
  Result, ok, err, ltb, if◌then◌else◌,
}
use wisp_shell.Protocol.Failure.{Failure, connection_closed}
use wisp_shell.Protocol.Messages.{
  AgentToClient, agent_challenge, agent_auth_ok, session_attached, scrollback, output,
  session_exited, error, pong, ClientToAgent, resize, ping, binary_kind_client_input,
}
use wisp_shell.Protocol.Frames.{encode_binary_frame, encode_short_binary_frame}
use wisp_shell.Agent.Streams.{Json}
use wisp_shell.Agent.Serve.{Standard}
use wisp_shell.Android.Frames.{json, binary_output, Read}

pub data TerminalCommand : Type 0 where
  input : List ℕ → TerminalCommand
  resize_to : (cols rows : ℕ) → TerminalCommand
  ping_with : Str → TerminalCommand
  close : TerminalCommand

-- The calls of `Callback`; an error of `anyhow` carries its text.
pub data Call : Type 0 where
  on_state : Str → Call
  on_error : Str → Call
  on_failure : Failure → Call
  on_output : List ℕ → Call
  on_scrollback : List ℕ → Call

pub record Terminal : Type 0 where
  pub session_id : Option Str
  pub last_pong_ms : ℕ
  -- Of the task that reads.
  pub attached : Bool
  pub calls : List Call
  -- Of the task that writes, and the channel to it.
  pub commands : List TerminalCommand
  pub receiving : Bool
  pub peer_open : Bool
  pub written : List ℕ
  -- Of the task that pings.
  pub nonce_counter : ℕ

-- Whether the task's loop goes round again.
pub data Next : Type 0 where
  again stop : Next

abbrev pub call : Terminal → List Call → Terminal
call t calls = record t { calls = t.calls ++ calls }

abbrev pub disconnect : Terminal → Str → Terminal
disconnect t message = call t (on_error message ∷ (on_state (text "disconnected") ∷ []))

module _ (standard : Standard) where
  -- `STANDARD.decode` of a chunk, reported by `f` or as an error.
  abbrev pub decoded : (List ℕ → Call) → Str → Call
  decoded f chunk = elim (standard.decode chunk) [
    | none ↦ on_error (text "invalid base64")
    | some bytes ↦ f bytes
  ]

  abbrev pub scrolled : List Str → List Call
  scrolled [] = []
  scrolled (chunk ∷ chunks) = decoded on_scrollback chunk ∷ scrolled chunks

  unfoldable pub on_message : Terminal → AgentToClient → ℕ → Terminal
  on_message t (session_attached id name cols rows) now =
      call (record t { attached = true; last_pong_ms = now; session_id = some id })
        (on_state (text "attached") ∷ [])
  on_message t (pong nonce) now = record t { last_pong_ms = now }
  on_message t (scrollback id chunks_b64) now = call t (scrolled chunks_b64)
  on_message t (output id data_b64) now = call t (decoded on_output data_b64 ∷ [])
  on_message t (error code message) now = call t (on_error message ∷ [])
  on_message t (agent_challenge c) now = t
  on_message t (agent_auth_ok signature) now = t
  on_message t (session_exited id exit_code) now = t

  -- The task that reads, on what it read.
  unfoldable pub on_read : Terminal → Read → ℕ → Next × Terminal
  unfolding on_message
  on_read t (ok none) now = (stop, call t (on_state (text "disconnected") ∷ []))
  on_read t (ok (some (binary_output bytes, rest))) now = (again, call t (on_output bytes ∷ []))
  on_read t (ok (some (json frame, rest))) now = (again, on_message t frame now)
  on_read t (err e) now = (stop, call t (on_failure e ∷ (on_state (text "disconnected") ∷ [])))

  -- The read did not end in ten seconds: only before the attachment does the task wait so long.
  unfoldable pub on_read_timeout : Terminal → Next × Terminal
  on_read_timeout t =
      if t.attached then (again, t) else (stop, disconnect t (text "terminal attach timed out"))

-- The task that pings, every ten seconds. `number` is the decimal text of the counter.
unfoldable pub on_tick : (ℕ → Str) → Terminal → ℕ → Next × Terminal
on_tick number t now = elim t.session_id [
  | none ↦ (again, t)
  | some id ↦
      if ltb 30000 (now - t.last_pong_ms)
      then (stop, disconnect t (text "terminal heartbeat timed out"))
      else (let n = (t.nonce_counter + 1) % 2 ^ 64 in
          if t.receiving
          then (
            again,
            record t {
              nonce_counter = n;
              commands = t.commands ++ ping_with (text "android-" ++ number n) ∷ [];
            },
          )
          else (stop, record t { nonce_counter = n }))
]

-- `write_all` of a frame that was encoded.
abbrev pub write_frame : Terminal → Result Failure (List ℕ) → Result Failure (Unit {0}) × Terminal
write_frame t (err e) = (err e, t)
write_frame t (ok frame) =
    if t.peer_open
    then (ok tt, record t { written = t.written ++ frame })
    else (err connection_closed, t)

abbrev pub or_else :
    Result Failure (Unit {0}) × Terminal
    → (Terminal → Result Failure (Unit {0}) × Terminal)
    → Result Failure (Unit {0}) × Terminal
or_else (ok u, t) next = (ok u, t)
or_else (err e, t) next = next t

-- The task that writes ends at an error.
abbrev pub unless_failed : Str → Result Failure (Unit {0}) × Terminal → Next × Terminal
unless_failed message (ok u, t) = (again, t)
unless_failed message (err e, t) = (stop, record (disconnect t message) { receiving = false })

unfoldable pub write_input : Terminal → Str → List ℕ → Result Failure (Unit {0}) × Terminal
write_input t session_id bytes =
    or_else (write_frame t (encode_short_binary_frame bytes))
      (λ t'. write_frame t' (encode_binary_frame binary_kind_client_input session_id bytes))

-- `serde_json::to_string` and the newline.
abbrev pub write_message : Json → Terminal → ClientToAgent → Result Failure (Unit {0}) × Terminal
write_message j t frame = write_frame t (ok (j.client_to_vec frame ++ 10 ∷ []))

-- The task that writes, on the command that it received.
unfoldable pub on_command : Json → Terminal → TerminalCommand → Next × Terminal
unfolding write_input
on_command j t (input bytes) = elim t.session_id [
  | none ↦ (again, t)
  | some id ↦ unless_failed (text "terminal write failed") (write_input t id bytes)
]
on_command j t (resize_to cols rows) = elim t.session_id [
  | none ↦ (again, t)
  | some id ↦
      unless_failed (text "terminal resize failed") (write_message j t (resize id cols rows))
]
on_command j t (ping_with nonce) =
    unless_failed (text "terminal heartbeat failed") (write_message j t (ping nonce))
on_command j t close = (stop, record t { receiving = false })

-- `rx.recv()`: the next command, if there is one.
unfoldable pub receive : Json → Terminal → Next × Terminal
unfolding on_command
receive j t = elim t.commands [
  | [] ↦ (again, t)
  | command ∷ commands ↦ on_command j (record t { commands = commands }) command
]
