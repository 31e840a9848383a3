-- ===== src/Agent/Serve/Loop.antt =====
-- `handle_client_frames` of components/agent/src/transport_stream.rs. Each round reads a frame, so as
-- much fuel as there are bytes and one more is enough.
use wisp_shell.Prelude.{
  ℕ, zero, suc, ◌+◌, ◌<◌, ◌≡◌, ◌≢◌, refl, Option, none, some, List, [], ◌∷◌, length, Str, Result,
  ok, err, arith,
}
use wisp_shell.Protocol.Failure.{Failure}
use wisp_shell.Agent.Streams.{Json, ClientStreamFrame, read_client_stream_frame}
use wisp_shell.Agent.Session.{Pty, SessionManager}
use wisp_shell.Agent.Serve.{
  Standard, Connection, Surroundings, Outcome, handle_frame, abort, opened,
}
use wisp_shell.Agent.Serve.Output.{on_session_output}
use wisp_shell.Agent.Serve.Frames.{read-shorter}

-- How the loop ends: `Ok`, an error, or without fuel.
pub data Ending : Type 0 where
  finished : Ending
  failed : Failure → Ending
  out_of_fuel : Ending

-- The next round, unless `?` returned an error.
abbrev pub go_on :
    {Handle : Type 0}
    → Outcome Handle
    → (Connection Handle → Ending × Connection Handle)
    → Ending × Connection Handle
go_on (ok u, c) next = next c
go_on (err e, c) next = (failed e, c)

module _ {Handle : Type 0} (j : Json) (standard : Standard) where
  -- The output of the sessions, chunk by chunk, as the tasks of the connection send it on.
  unfoldable pub delivered : List (Str × List ℕ) → Connection Handle → Connection Handle
  unfolding on_session_output
  delivered [] c = c
  delivered ((session_id, bytes) ∷ chunks) c =
      delivered chunks (on_session_output j standard c session_id bytes)

module _ {Handle : Type 0} (j : Json) (standard : Standard) (p : Pty Handle) (client_id : Str)
    (w : Surroundings Handle) where
  -- The connection when the n-th frame is handled.
  abbrev pub arrived : ℕ → Connection Handle → Connection Handle
  arrived n c = delivered j standard (w.output n) (record c { sessions = w.others n c.sessions })

  unfoldable pub frame_loop : (fuel n : ℕ) → List ℕ → Connection Handle → Ending × Connection Handle
  unfolding read_client_stream_frame handle_frame abort delivered
  frame_loop zero n bytes c = (out_of_fuel, c)
  frame_loop (suc fuel) n bytes c = elim (read_client_stream_frame j bytes) [
    | err e ↦ (failed e, c)
    | ok none ↦ (finished, record c { output_tasks = abort c.output_tasks })
    | ok (some (frame, rest)) ↦
        go_on
          (handle_frame j standard p client_id (arrived n c) frame
            (w.uuid n (w.others n c.sessions)) (w.now n))
          (frame_loop fuel (n + 1) rest)
  ]

  -- On a stream of these bytes.
  unfoldable pub handle_client_frames : List ℕ → SessionManager Handle → Ending × Connection Handle
  unfolding frame_loop
  handle_client_frames bytes sessions = frame_loop (suc (length bytes)) 0 bytes (opened sessions)

  go_on-ends :
      (o : Outcome Handle) (next : Connection Handle → Ending × Connection Handle)
      → ((c : Connection Handle) → (next c).0 ≢ out_of_fuel)
      → (go_on o next).0 ≢ out_of_fuel
  go_on-ends (ok u, c) next h = h c
  go_on-ends (err e, c) next h = λ a. ground (arith, a)

  round_ends :
      (fuel n : ℕ) (bytes : List ℕ) (c : Connection Handle)
      → ((rest : List ℕ) (c' : Connection Handle)
          → length rest < fuel
          → (frame_loop fuel (n + 1) rest c').0 ≢ out_of_fuel)
      → length bytes < suc fuel
      → (frame_loop (suc fuel) n bytes c).0 ≢ out_of_fuel
  unfolding frame_loop
  round_ends fuel n bytes c next h = by_read (read_client_stream_frame j bytes) refl
    where
      by_read :
          (r : Result Failure (Option (ClientStreamFrame × List ℕ)))
          → read_client_stream_frame j bytes ≡ r
          → (frame_loop (suc fuel) n bytes c).0 ≢ out_of_fuel
      by_read (err e) q = rw (frame_loop, q) (λ a. ground (arith, a))
      by_read (ok none) q = rw (frame_loop, q) (λ a. ground (arith, a))
      by_read (ok (some (frame, rest))) q =
          let shorter = read-shorter j frame rest bytes q in
          rw (frame_loop, q)
            (go_on-ends _ (frame_loop fuel (n + 1) rest) (λ c'. next rest c' (omega arith)))

  -- With more fuel than bytes, the loop does not run out of fuel.
  pub frame_loop-ends :
      (fuel n : ℕ) (bytes : List ℕ) (c : Connection Handle)
      → length bytes < fuel
      → (frame_loop fuel n bytes c).0 ≢ out_of_fuel
  frame_loop-ends zero n bytes c h = absurd (omega arith)
  frame_loop-ends (suc fuel) n bytes c h =
      round_ends fuel n bytes c (λ rest c'. frame_loop-ends fuel (n + 1) rest c') h

  -- The loop over a client's frames ends on every stream: it never runs out of the fuel that it is
  -- given, one more than the bytes of the stream, whatever runs beside it.
  pub handle_client_frames_ends :
      (bytes : List ℕ) (sessions : SessionManager Handle)
      → (handle_client_frames bytes sessions).0 ≢ out_of_fuel
  unfolding handle_client_frames
  handle_client_frames_ends bytes sessions =
      frame_loop-ends (suc (length bytes)) 0 bytes (opened sessions) (omega arith)
