-- ===== src/Agent/State/Trust.antt =====
-- Whom the daemon trusts after a pairing.
use wisp_shell.Prelude.{
  ◌≡◌, Bool, not, ◌&&◌, List, [], ◌∷◌, ◌++◌, Str, str_eq, str_eq_iff, any, filter, arith,
  if◌then◌else◌,
}
use wisp_shell.Agent.State.{TrustedClient, AgentState, trust_client, is_trusted}

matches : Str → Str → TrustedClient → Bool
matches id key c = str_eq c.client_device_id id && str_eq c.client_public_key key

other_than : TrustedClient → TrustedClient → Bool
other_than client c = not (str_eq c.client_device_id client.client_device_id)

any_others :
    (clients : List TrustedClient) (client : TrustedClient) (id key : Str)
    → any (matches id key) (filter (other_than client) clients ++ client ∷ []) ≡ (
        if str_eq client.client_device_id id
        then str_eq client.client_public_key key
        else any (matches id key) clients)
unfolding any filter matches other_than
any_others [] client id key = ground arith
any_others (c ∷ clients) client id key = ground (
  arith,
  str_eq_iff c.client_device_id client.client_device_id,
  str_eq_iff c.client_device_id id,
  str_eq_iff client.client_device_id id,
  any_others clients client id key,
)

-- After a client was trusted, its id is trusted with its new key only, and every other client as
-- before.
pub is_trusted-trust_client :
    (state : AgentState) (client : TrustedClient) (id key : Str)
    → is_trusted (trust_client state client) id key ≡ (
        if str_eq client.client_device_id id
        then str_eq client.client_public_key key
        else is_trusted state id key)
unfolding is_trusted trust_client
is_trusted-trust_client state client id key =
    unfold matches other_than in any_others state.trusted_clients client id key
