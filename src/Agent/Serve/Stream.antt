-- ===== src/Agent/Serve/Stream.antt =====
-- A whole stream: over iroh the handshake and then the client's frames (components/agent/src/
-- transport_iroh.rs), over local TCP the frames at once (transport_local.rs).
use wisp_shell.Prelude.{
  ◌≡◌, not, ◌&&◌, Option, List, [], ◌∷◌, ◌++◌, Str, text, str_eq, str_eq_iff, any, filter, ok, err,
  ℕ, arith,
}
use wisp_shell.Protocol.Failure.{Failure}
use wisp_shell.Protocol.Crypto.{Primitives}
use wisp_shell.Agent.State.{TrustedClient, AgentState, is_trusted}
use wisp_shell.Agent.Pairing.{revoke}
use wisp_shell.Agent.Session.{Pty, SessionManager}
use wisp_shell.Agent.Streams.{Json}
use wisp_shell.Agent.Handshake.{handle_authenticated_stream}
use wisp_shell.Agent.Serve.{Standard, Surroundings}
use wisp_shell.Agent.Serve.Loop.{Ending, failed, handle_client_frames}

module _ {Handle : Type 0} (j : Json) (standard : Standard) (p : Pty Handle)
    (w : Surroundings Handle) where
  -- How the stream ends, and the sessions that it leaves.
  unfoldable pub iroh_stream :
      Primitives
      → AgentState
      → Option AgentState
      → (daemon_nonce : Str) → List ℕ
      → SessionManager Handle
      → Ending × SessionManager Handle
  unfolding handle_authenticated_stream handle_client_frames
  iroh_stream c state latest daemon_nonce bytes sessions =
      elim (handle_authenticated_stream c j state latest daemon_nonce bytes) [
        | err e ↦ (failed e, sessions)
        | ok a ↦
            let (ending, connection) =
              handle_client_frames j standard p a.client_device_id w a.rest sessions in
            (ending, connection.sessions)
      ]

  -- Any local client is a client of its own.
  unfoldable pub local_stream :
      (uuid : Str) → List ℕ → SessionManager Handle → Ending × SessionManager Handle
  unfolding handle_client_frames
  local_stream uuid bytes sessions =
      let (ending, connection) =
        handle_client_frames j standard p (text "local-" ++ uuid) w bytes sessions in
      (ending, connection.sessions)

any_kept :
    (clients : List TrustedClient) (id client key : Str)
    → any
        (λ (c : TrustedClient). str_eq c.client_device_id client && str_eq c.client_public_key key)
        (filter (λ (c : TrustedClient). not (str_eq c.client_device_id id)) clients)
      ≡ (not (str_eq client id)
          && any
              (λ (c : TrustedClient).
                str_eq c.client_device_id client && str_eq c.client_public_key key)
              clients)
unfolding any filter
any_kept [] id client key = ground arith
any_kept (c ∷ clients) id client key =
    ground (arith, str_eq_iff c.client_device_id client, any_kept clients id client key)

-- After a client was revoked, none of its keys is trusted, and every other client is as before.
pub is_trusted-revoke :
    (state : AgentState) (id client key : Str)
    → is_trusted (revoke state id) client key
      ≡ (not (str_eq client id) && is_trusted state client key)
unfolding is_trusted revoke
is_trusted-revoke state id client key = any_kept state.trusted_clients id client key
