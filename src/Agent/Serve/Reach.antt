-- ===== src/Agent/Serve/Reach.antt =====
-- The states of the sessions that streams lead to (components/agent/src/transport_stream.rs) are
-- those that attaching, typing, resizing, detaching and printing lead to.
use wisp_shell.Prelude.{Str}
use wisp_shell.Protocol.Failure.{Failure}
use wisp_shell.Agent.Streams.{Json}
use wisp_shell.Agent.Session.{Pty, SessionManager}
use wisp_shell.Agent.Session as Session
use wisp_shell.Agent.Session.Reachable.{Reachable}
use wisp_shell.Agent.Serve.{Standard}

module _ {Handle : Type 0} (j : Json) (standard : Standard) (p : Pty Handle) (client : Str) where
  abbrev Reached : SessionManager Handle → Type 0
  Reached m = Reachable standard.encode p m
