-- ===== src/Agent/Serve/Delivery.antt =====
-- Sending output on leaves the sessions (components/agent/src/transport_stream.rs).
use wisp_shell.Prelude.{
  ℕ, ◌≡◌, ◌∙◌, refl, ◌&&◌, inl, inr, Bool, Bool-cases, true, false, List, [], ◌∷◌, Str, str_eq,
  if◌then◌else◌, Result, ok, err,
}
use wisp_shell.Protocol.Failure.{Failure}
use wisp_shell.Protocol.Messages.{output, binary_kind_agent_output}
use wisp_shell.Agent.Session.{SessionManager}
use wisp_shell.Agent.Streams.{Json, write_json}
use wisp_shell.Agent.Serve.{Standard, OutputTask, Connection, Outcome, write_all}
use wisp_shell.Agent.Serve.Safety.{sessions-write_all}
use wisp_shell.Agent.Serve.Output.{
  write_frame, write_binary_frame, write_short_binary_frame, or_else, write_output, round_of, wake,
  on_session_output,
}
use wisp_shell.Agent.Serve.Loop.{delivered}

module _ {Handle : Type 0} where
  sessions-write_frame :
      (c : Connection Handle) (r : Result Failure (List ℕ))
      → (write_frame c r).1.sessions ≡ c.sessions
  sessions-write_frame c (ok frame) = sessions-write_all c frame
  sessions-write_frame c (err e) = refl

  sessions-or_else :
      (m : SessionManager Handle) (o : Outcome Handle) (next : Connection Handle → Outcome Handle)
      → o.1.sessions ≡ m
      → ((c : Connection Handle) → (next c).1.sessions ≡ c.sessions)
      → (or_else o next).1.sessions ≡ m
  sessions-or_else m (ok u, c) next here there = here
  sessions-or_else m (err e, c) next here there = there c ∙ here

  sessions-if :
      (m : SessionManager Handle) (t : Bool) (x y : Outcome Handle)
      → x.1.sessions ≡ m
      → y.1.sessions ≡ m
      → (if t then x else y).1.sessions ≡ m
  sessions-if m true x y here there = here
  sessions-if m false x y here there = there

  module _ (j : Json) (standard : Standard) where
    sessions-write_output :
        (c : Connection Handle) (id : Str) (bytes : List ℕ)
        → (write_output j standard c id bytes).1.sessions ≡ c.sessions
    unfolding write_output write_short_binary_frame write_binary_frame
    sessions-write_output c id bytes =
        sessions-if c.sessions c.binary_output_enabled
          (or_else (write_short_binary_frame c bytes)
            (λ c'. write_binary_frame c' binary_kind_agent_output id bytes))
          (write_all c (write_json j (output id (standard.encode bytes))))
          (sessions-or_else c.sessions (write_short_binary_frame c bytes)
            (λ c'. write_binary_frame c' binary_kind_agent_output id bytes)
            (sessions-write_frame c _) (λ c'. sessions-write_frame c' _))
          (sessions-write_all c _)

    sessions-round_of :
        (task : OutputTask) (o : Outcome Handle)
        → (round_of j standard task o).1.sessions ≡ o.1.sessions
    sessions-round_of task (ok u, c) = refl
    sessions-round_of task (err e, c) = refl

    sessions-wake :
        (tasks : List OutputTask) (c : Connection Handle) (id : Str) (bytes : List ℕ)
        → (wake j standard tasks c id bytes).1.sessions ≡ c.sessions
    unfolding wake
    sessions-wake [] c id bytes = refl
    sessions-wake (task ∷ tasks) c id bytes =
        elim (Bool-cases (task.running && str_eq task.session_id id)) [
          | inl t ↦
              rw (wake, t)
                (sessions-wake tasks _ id bytes
                  ∙ sessions-round_of task (write_output j standard c task.session_id bytes)
                  ∙ sessions-write_output c task.session_id bytes)
          | inr f ↦ rw (wake, f) (sessions-wake tasks c id bytes)
        ]

    pub sessions-delivered :
        (chunks : List (Str × List ℕ)) (c : Connection Handle)
        → (delivered j standard chunks c).sessions ≡ c.sessions
    unfolding delivered on_session_output
    sessions-delivered [] c = refl
    sessions-delivered ((id, bytes) ∷ chunks) c =
        sessions-delivered chunks (on_session_output j standard c id bytes)
        ∙ sessions-wake c.output_tasks c id bytes
