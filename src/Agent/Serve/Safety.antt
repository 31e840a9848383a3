-- ===== src/Agent/Serve/Safety.antt =====
-- What the frames of one client do to the sessions, components/agent/src/transport_stream.rs.
use wisp_shell.Prelude.{ℕ, Bool, true, false, ◌≡◌, refl, Option, List, Str, arith}
use mathlib.Core.Option
use wisp_shell.Protocol.Failure.{Failure}
use wisp_shell.Protocol.Messages.{client_hello, client_auth, attach, input, resize, detach, ping}
use wisp_shell.Agent.Streams.{Json, ClientStreamFrame, json, binary, short_binary}
use wisp_shell.Agent.Session.{
  Pty, SessionAttachResult, attach_or_create, find_id, by_id, set_remove,
}
use wisp_shell.Agent.Session as Session
use wisp_shell.Agent.Serve.{Standard, Connection, write_all, on_attached}

-- Neither an attachment nor a change of size.
abbrev pub is_quiet : ClientStreamFrame → Bool
is_quiet (short_binary frame) = true
is_quiet (binary frame) = true
is_quiet (json (attach name cols rows)) = false
is_quiet (json (input session_id data_b64)) = true
is_quiet (json (resize session_id cols rows)) = false
is_quiet (json (detach session_id)) = true
is_quiet (json (ping nonce)) = true
is_quiet (json (client_hello hello)) = true
is_quiet (json (client_auth signature)) = true

module _ {Handle : Type 0} where
  pub sessions-write_all :
      (c : Connection Handle) (bytes : List ℕ) → (write_all c bytes).1.sessions ≡ c.sessions
  unfolding write_all
  sessions-write_all c bytes = ground arith

  pub sessions-on_attached :
      (j : Json) (standard : Standard) (p : Pty Handle) (client : Str) (c : Connection Handle)
      (r : SessionAttachResult)
      → (on_attached j standard p client c r).1.sessions ≡ c.sessions
  unfolding on_attached write_all
  sessions-on_attached j standard p client c r = by_open c.peer_open refl
    where
      by_open :
          (t : Bool)
          → c.peer_open ≡ t
          → (on_attached j standard p client c r).1.sessions ≡ c.sessions
      by_open true e = rw (on_attached, e) refl
      by_open false e = rw (on_attached, e) refl
