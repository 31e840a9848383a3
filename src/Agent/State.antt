-- ===== src/Agent/State.antt =====
-- The daemon's state of components/agent/src/state.rs: whom it trusts. State.File has the file that
-- it is kept in, Agent.Commands the commands that change it.
pub mod Trust
pub mod File
use wisp_shell.Prelude.{Bool, not, ◌&&◌, List, [], ◌∷◌, ◌++◌, Str, str_eq, any, filter}

pub record TrustedClient : Type 0 where
  pub client_device_id : Str
  pub client_public_key : Str
  pub client_name : Str

pub record AgentState : Type 0 where
  pub device_id : Str
  pub private_key : Str
  pub public_key : Str
  pub trusted_clients : List TrustedClient

unfoldable pub trust_client : AgentState → TrustedClient → AgentState
unfolding filter
trust_client state client =
    let others =
      filter (λ (c : TrustedClient). not (str_eq c.client_device_id client.client_device_id))
        state.trusted_clients in
    record state { trusted_clients = others ++ client ∷ [] }

-- The test of the handshake (components/agent/src/transport_iroh.rs).
unfoldable pub is_trusted : AgentState → Str → Str → Bool
unfolding any
is_trusted state client_device_id client_public_key =
    any
      (λ (c : TrustedClient).
        str_eq c.client_device_id client_device_id && str_eq c.client_public_key client_public_key)
      state.trusted_clients
