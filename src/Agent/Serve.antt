-- ===== src/Agent/Serve.antt =====
-- The loop over a client's frames and the tasks that send output, components/agent/src/
-- transport_stream.rs. A connection is the stream's own state beside the sessions, which all
-- connections share. `peer_open` tells whether the transport still takes bytes.
pub mod Frames
pub mod Loop
pub mod Safety
pub mod Delivery
pub mod Reach
pub mod Output
pub mod Task
pub mod Stream
use wisp_shell.Prelude.{
  ℕ, zero, suc, ◌+◌, ◌==◌, Bool, true, false, Option, none, some, List, [], ◌∷◌, ◌++◌, map, Str,
  Result, ok, err, if◌then◌else◌, length,
}
use wisp_shell.Protocol.Failure.{Failure, connection_closed, invalid_base64}
use wisp_shell.Protocol.Messages.{
  ClientToAgent, client_hello, client_auth, attach, input, resize, detach, ping, AgentToClient,
  session_attached, scrollback, output, pong, BinaryFrame, ShortBinaryFrame,
  binary_kind_client_input, binary_kind_agent_output,
}
use wisp_shell.Protocol.Frames.{encode_binary_frame, encode_short_binary_frame}
use wisp_shell.Agent.Streams.{
  Json, ClientStreamFrame, json, binary, short_binary, read_client_stream_frame, write_json,
}
use wisp_shell.Agent.Session.{Pty, SessionManager, SessionAttachResult, attach_or_create}
use wisp_shell.Agent.Session as Session

-- `base64::engine::general_purpose::STANDARD`
pub record Standard : Type 0 where
  pub encode : List ℕ → Str
  pub decode : Str → Option (List ℕ)

-- A task that sends a session's output; it runs until a write fails or it is aborted.
pub record OutputTask : Type 0 where
  pub session_id : Str
  pub running : Bool

pub record Connection (Handle : Type 0) : Type 0 where
  pub sessions : SessionManager Handle
  pub binary_output_enabled : Bool
  pub attached_session_id : Option Str
  -- The newest first: `output_task` holds that one only.
  pub output_tasks : List OutputTask
  pub peer_open : Bool
  pub written : List ℕ

-- What runs beside the loop: the UUID and the time that the n-th frame draws, and what the other
-- connections and the shells do to the sessions before it, and the output that comes by then.
pub record Surroundings (Handle : Type 0) : Type 0 where
  pub uuid : ℕ → SessionManager Handle → Str
  pub now : ℕ → ℕ
  pub others : ℕ → SessionManager Handle → SessionManager Handle
  pub output : ℕ → List (Str × List ℕ)

abbrev pub Outcome : Type 0 → Type 0
Outcome Handle = Result Failure (Unit {0}) × Connection Handle

-- `task.abort()` of the newest task.
unfoldable pub abort : List OutputTask → List OutputTask
abort [] = []
abort (task ∷ tasks) = (record task { running = false }) ∷ tasks

module _ {Handle : Type 0} where
  abbrev pub opened : SessionManager Handle → Connection Handle
  opened sessions = record {
    sessions = sessions;
    binary_output_enabled = false;
    attached_session_id = none;
    output_tasks = [];
    peer_open = true;
    written = [];
  }

  -- `write_all` of a frame and `flush`.
  unfoldable pub write_all : Connection Handle → List ℕ → Outcome Handle
  write_all c bytes =
      if c.peer_open
      then (ok tt, record c { written = c.written ++ bytes })
      else (err connection_closed, c)

  -- What follows a step, unless it failed.
  abbrev pub and_then : Outcome Handle → (Connection Handle → Outcome Handle) → Outcome Handle
  and_then (ok u, c) next = next c
  and_then (err e, c) next = (err e, c)

  -- The sessions that an operation left, or its error.
  abbrev pub with_sessions :
      Connection Handle → Result Failure (SessionManager Handle) → Outcome Handle
  with_sessions c (ok m) = (ok tt, record c { sessions = m })
  with_sessions c (err e) = (err e, c)

  module _ (j : Json) (standard : Standard) (p : Pty Handle) (client_id : Str) where
    -- The answers to an attachment, and its task.
    unfoldable pub on_attached : Connection Handle → SessionAttachResult → Outcome Handle
    unfolding write_all
    on_attached c r =
        and_then
          (and_then
            (write_all c
              (write_json j (session_attached r.session_id r.session_name r.cols r.rows)))
            (λ c'. write_all c' (write_json j (scrollback r.session_id r.scrollback_b64))))
          (λ c'. (
            ok tt,
            record c' {
              output_tasks =
                  (record { session_id = r.session_id; running = true }) ∷ c'.output_tasks;
            },
          ))

    unfoldable pub on_attach :
        Connection Handle → Str → (cols rows : ℕ) → (uuid : Str) → (now : ℕ) → Outcome Handle
    unfolding on_attached
    on_attach c session_name cols rows uuid now =
        elim (attach_or_create standard.encode p c.sessions client_id session_name cols rows uuid
          now) [
            | err e ↦ (err e, c)
            | ok (r, m) ↦
                on_attached (record c { sessions = m; attached_session_id = some r.session_id }) r
          ]

    unfoldable pub on_message : Connection Handle → ClientToAgent → Str → ℕ → Outcome Handle
    unfolding on_attach write_all
    on_message c (attach session_name cols rows) uuid now =
        on_attach c session_name cols rows uuid now
    on_message c (input session_id data_b64) uuid now = elim (standard.decode data_b64) [
      | none ↦ (err invalid_base64, c)
      | some bytes ↦ with_sessions c (Session.input p c.sessions client_id session_id bytes)
    ]
    on_message c (resize session_id cols rows) uuid now =
        let (r, m) = Session.resize p c.sessions session_id cols rows in
        (r, record c { sessions = m })
    on_message c (detach session_id) uuid now =
        with_sessions c (Session.detach c.sessions client_id session_id)
    on_message c (ping nonce) uuid now = write_all c (write_json j (pong nonce))
    on_message c (client_hello hello) uuid now = (ok tt, c)
    on_message c (client_auth signature) uuid now = (ok tt, c)

    -- The body of the loop.
    unfoldable pub handle_frame : Connection Handle → ClientStreamFrame → Str → ℕ → Outcome Handle
    unfolding on_message
    handle_frame c (short_binary frame) uuid now =
        let c' = record c { binary_output_enabled = true } in
        elim c.attached_session_id [
          | none ↦ (ok tt, c')
          | some session_id ↦
              with_sessions c' (Session.input p c.sessions client_id session_id frame.payload)
        ]
    handle_frame c (binary frame) uuid now =
        if frame.kind == binary_kind_client_input
        then with_sessions (record c { binary_output_enabled = true })
            (Session.input p c.sessions client_id frame.session_id frame.payload)
        else (ok tt, c)
    handle_frame c (json message) uuid now = on_message c message uuid now
