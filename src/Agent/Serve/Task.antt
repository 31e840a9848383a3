-- ===== src/Agent/Serve/Task.antt =====
-- The task that `attach` spawns (components/agent/src/transport_stream.rs), run on what the
-- session's channel of 256 messages answers. While nothing has come, it waits.
use wisp_shell.Prelude.{ℕ, ◌≡◌, refl, Bool, true, false, List, [], ◌∷◌, ◌++◌, map, Str, ok, err}
use wisp_shell.Prelude.Broadcast.{Received, message, lagged, closed}
use wisp_shell.Agent.Streams.{Json}
use wisp_shell.Agent.Serve.{Standard, Connection, Outcome}
use wisp_shell.Agent.Serve.Output.{write_output}

module _ {Handle : Type 0} where
  -- What follows the write of one output: the task goes on, or breaks off.
  abbrev pub unless_broken :
      Outcome Handle → (Connection Handle → Bool × Connection Handle) → Bool × Connection Handle
  unless_broken (ok u, c) loop = loop c
  unless_broken (err e, c) loop = (false, c)

  unless_broken-lagged :
      (o : Outcome Handle) (full cut : Connection Handle → Bool × Connection Handle)
      → ((c : Connection Handle) → full c ≡ (false, (cut c).1))
      → unless_broken o full ≡ (false, (unless_broken o cut).1)
  unless_broken-lagged (ok u, c) full cut same = same c
  unless_broken-lagged (err e, c) full cut same = refl

module _ {Handle : Type 0} (j : Json) (standard : Standard) where
  -- Whether the task still runs, and the connection.
  unfoldable pub output_task :
      Connection Handle → Str → List (Received (List ℕ)) → Bool × Connection Handle
  unfolding write_output
  output_task c session_id [] = (true, c)
  output_task c session_id (message bytes ∷ answers) =
      unless_broken (write_output j standard c session_id bytes)
        (λ c'. output_task c' session_id answers)
  output_task c session_id (lagged n ∷ answers) = (false, c)
  output_task c session_id (closed ∷ answers) = (false, c)

  -- A client that falls behind is sent nothing more: the task ends at the first `lagged`, and the
  -- connection is left as after the outputs before it, whatever the channel still holds.
  pub output_task-lagged :
      (c : Connection Handle) (session_id : Str) (outputs : List (List ℕ)) (n : ℕ)
      (later : List (Received (List ℕ)))
      → output_task c session_id (map message outputs ++ lagged n ∷ later)
        ≡ (false, (output_task c session_id (map message outputs)).1)
  unfolding output_task
  output_task-lagged c session_id [] n later = refl
  output_task-lagged c session_id (bytes ∷ outputs) n later =
      unless_broken-lagged (write_output j standard c session_id bytes)
        (λ c'. output_task c' session_id (map message outputs ++ lagged n ∷ later))
        (λ c'. output_task c' session_id (map message outputs))
        (λ c'. output_task-lagged c' session_id outputs n later)
