-- ===== src/Agent/Examples/Serve.antt =====
-- The theorems on whole streams at concrete inputs.
use wisp_shell.Prelude.{
  ℕ, zero, suc, ◌≢◌, ◌+◌, ◌<◌, Bool, true, false, Option, some, List, [], ◌∷◌, ◌++◌, Str, Result,
  err,
}
use wisp_shell.Prelude.HashMap.{HashMap}
use wisp_shell.Protocol.Messages.{client_hello, attach}
use wisp_shell.Agent.Session.{SessionManager, SessionRuntime}
use wisp_shell.Agent.Session.Reachable.{Reachable}
use wisp_shell.Agent.Streams.{json}
use wisp_shell.Agent.Serve.{Standard, Connection, Surroundings, opened, handle_frame}
use wisp_shell.Agent.Serve.Loop.{handle_client_frames, out_of_fuel, handle_client_frames_ends}
use wisp_shell.Agent.Examples.{abc, pty, standard, manager, phone, work, id, running}
use wisp_shell.Agent.Examples.Transport.{names, auth, hello, named_line}

abbrev base64 : Standard
base64 = record { encode = standard; decode = λ s. some s }

-- An id that is longer than all those in use together.
long_id : HashMap (SessionRuntime (List ℕ)) → Str
long_id [] = 120 ∷ []
long_id ((name, s) ∷ inner) = s.id ++ long_id inner

abbrev alone : Surroundings (List ℕ)
alone = record { uuid = λ n m. long_id m.inner; now = λ n. n; others = λ n m. m; output = λ n. [] }

-- A handshake that succeeds while the client is trusted.
abbrev greeting : List ℕ
greeting = named_line (client_hello hello) ++ 10 ∷ (named_line auth ++ 10 ∷ abc)

-- A short frame, then a byte that begins no frame.
abbrev bytes : List ℕ
bytes = 31 ∷ 3 ∷ (abc ++ 7 ∷ [])

handle_client_frames_ends_example :
    (handle_client_frames names base64 pty phone alone bytes running).0 ≢ out_of_fuel
handle_client_frames_ends_example =
    handle_client_frames_ends names base64 pty phone alone bytes running

abbrev in_binary : Connection (List ℕ)
in_binary = record (opened running) { binary_output_enabled = true }

abbrev after_attach : Connection (List ℕ)
after_attach =
    (handle_frame names base64 pty phone (opened manager) (json (attach work 80 24)) id 1).1
