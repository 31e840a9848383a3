-- ===== src/Agent/Commands/Knows.antt =====
-- The clients that a state knows, and what a command does to them.
use wisp_shell.Prelude.{
  ◌≡◌, ◌&&◌, refl, Bool, false, not, List, [], ◌∷◌, ◌++◌, Str, str_eq, any, filter, arith,
}
use wisp_shell.Agent.State.{TrustedClient, AgentState}
use wisp_shell.Agent.Commands.{FileCommand, forget, trust, edit}

-- Whether the client is trusted with any key.
unfoldable pub knows : Str → List TrustedClient → Bool
knows id clients = any (λ (c : TrustedClient). str_eq c.client_device_id id) clients

abbrev pub approves : FileCommand → Str → Bool
approves (forget client_id) id = false
approves (trust client) id = str_eq client.client_device_id id

-- A state of the same device that does not know the client.
pub record IsWithout (id : Str) (state s : AgentState) : Type 0 where
  pub device : s.device_id ≡ state.device_id
  pub key : s.public_key ≡ state.public_key
  pub unknown : knows id s.trusted_clients ≡ false

knows-filter :
    (id other : Str) (clients : List TrustedClient)
    → knows id clients ≡ false
    → knows id (filter (λ (c : TrustedClient). not (str_eq c.client_device_id other)) clients)
      ≡ false
unfolding knows any filter
knows-filter id other [] h = refl
knows-filter id other (c ∷ clients) h = ground (arith, knows-filter id other clients)

knows-append :
    (id : Str) (clients : List TrustedClient) (client : TrustedClient)
    → knows id clients ≡ false
    → str_eq client.client_device_id id ≡ false
    → knows id (clients ++ client ∷ []) ≡ false
unfolding knows any
knows-append id [] client h e = ground (arith, e)
knows-append id (c ∷ clients) client h e = ground (arith, knows-append id clients client)

pub knows-revoke :
    (id : Str) (clients : List TrustedClient)
    → knows id (filter (λ (c : TrustedClient). not (str_eq c.client_device_id id)) clients) ≡ false
unfolding knows any filter
knows-revoke id [] = refl
knows-revoke id (c ∷ clients) = ground (arith, knows-revoke id clients)

pub unknown_untrusted :
    (id key : Str) (clients : List TrustedClient)
    → knows id clients ≡ false
    → any
        (λ (c : TrustedClient). str_eq c.client_device_id id && str_eq c.client_public_key key)
        clients
      ≡ false
unfolding knows any
unknown_untrusted id key [] h = refl
unknown_untrusted id key (c ∷ clients) h = ground (arith, unknown_untrusted id key clients)

pub edit-IsWithout :
    (id : Str) (state s : AgentState) (command : FileCommand)
    → approves command id ≡ false
    → IsWithout id state s
    → IsWithout id state (edit command s)
unfolding edit
edit-IsWithout id state s (forget other) e h = record {
  device = h.device;
  key = h.key;
  unknown = knows-filter id other s.trusted_clients h.unknown;
}
edit-IsWithout id state s (trust client) e h = record {
  device = h.device;
  key = h.key;
  unknown =
      knows-append id
        (filter (λ (c : TrustedClient). not (str_eq c.client_device_id client.client_device_id))
          s.trusted_clients)
        client (knows-filter id client.client_device_id s.trusted_clients h.unknown) e;
}
