-- ===== src/Agent/Serve/Output.antt =====
-- The task that sends a session's output to a client, components/agent/src/transport_stream.rs.
use wisp_shell.Prelude.{
  ℕ, ◌≤◌, ◌≡◌, ◌&&◌, true, false, List, [], ◌∷◌, length, Str, str_eq, Result, ok, err,
  if◌then◌else◌, arith,
}
use wisp_shell.Protocol.Failure.{Failure}
use wisp_shell.Protocol.Messages.{output, binary_kind_agent_output, max_binary_payload_len}
use wisp_shell.Protocol.Frames.{encode_binary_frame, encode_short_binary_frame}
use wisp_shell.Agent.Streams.{Json, write_json}
use wisp_shell.Agent.Serve.{Standard, OutputTask, Connection, Outcome, write_all}

module _ {Handle : Type 0} where
  -- The frame is encoded, then written.
  abbrev pub write_frame : Connection Handle → Result Failure (List ℕ) → Outcome Handle
  write_frame c (err e) = (err e, c)
  write_frame c (ok frame) = write_all c frame

  unfoldable pub write_binary_frame : Connection Handle → ℕ → Str → List ℕ → Outcome Handle
  unfolding write_all
  write_binary_frame c kind session_id payload =
      write_frame c (encode_binary_frame kind session_id payload)

  unfoldable pub write_short_binary_frame : Connection Handle → List ℕ → Outcome Handle
  unfolding write_all
  write_short_binary_frame c payload = write_frame c (encode_short_binary_frame payload)

  -- What follows a step that failed.
  abbrev pub or_else : Outcome Handle → (Connection Handle → Outcome Handle) → Outcome Handle
  or_else (ok u, c) next = (ok u, c)
  or_else (err e, c) next = next c

  module _ (j : Json) (standard : Standard) where
    -- One chunk of output.
    unfoldable pub write_output : Connection Handle → Str → List ℕ → Outcome Handle
    unfolding write_all write_binary_frame write_short_binary_frame
    write_output c session_id bytes =
        if c.binary_output_enabled
        then or_else (write_short_binary_frame c bytes)
            (λ c'. write_binary_frame c' binary_kind_agent_output session_id bytes)
        else write_all c (write_json j (output session_id (standard.encode bytes)))

    -- A task stops at an error.
    abbrev pub round_of : OutputTask → Outcome Handle → OutputTask × Connection Handle
    round_of task (ok u, c) = (task, c)
    round_of task (err e, c) = (record task { running = false }, c)

    -- The tasks that a session's output wakes, one after the other.
    unfoldable pub wake :
        List OutputTask → Connection Handle → Str → List ℕ → List OutputTask × Connection Handle
    unfolding write_output
    wake [] c session_id bytes = ([], c)
    wake (task ∷ tasks) c session_id bytes =
        let (task', c') =
          if task.running && str_eq task.session_id session_id
          then round_of task (write_output c task.session_id bytes)
          else (task, c) in
        let (tasks', c'') = wake tasks c' session_id bytes in (task' ∷ tasks', c'')

    unfoldable pub on_session_output : Connection Handle → Str → List ℕ → Connection Handle
    unfolding wake
    on_session_output c session_id bytes =
        let (tasks, c') = wake c.output_tasks c session_id bytes in
        record c' { output_tasks = tasks }

    -- Once a client has sent a binary frame, the output that it gets does not tell the sessions
    -- apart, while a chunk has at most 16 MiB and the transport takes it.
    pub write_output-anonymous :
        (c : Connection Handle) (a b : Str) (bytes : List ℕ)
        → c.binary_output_enabled ≡ true
        → c.peer_open ≡ true
        → length bytes ≤ max_binary_payload_len
        → write_output c a bytes ≡ write_output c b bytes
    unfolding write_output write_short_binary_frame write_all encode_short_binary_frame
    write_output-anonymous c a b bytes binary_on peer fits = ground (arith, binary_on, peer, fits)
