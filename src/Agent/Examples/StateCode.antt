-- ===== src/Agent/Examples/StateCode.antt =====
-- A code for the daemon's state that is read back, for the concrete runs: its texts, each after its
-- length.
use wisp_shell.Prelude.{
  ℕ, zero, suc, ◌≤◌, ◌≡◌, ◌∙◌, ap, ap₂, refl, Option, none, some, List, [], ◌∷◌, ◌++◌, length,
  length-append, take, drop, take-append, drop-append, Str, arith,
}
use wisp_shell.Agent.State.{TrustedClient, AgentState}
use wisp_shell.Agent.State.File.{StateJson}

prefixed : List Str → List ℕ
prefixed [] = []
prefixed (s ∷ texts) = length s ∷ (s ++ prefixed texts)

parts : ℕ → List ℕ → List Str
parts zero bytes = []
parts (suc fuel) [] = []
parts (suc fuel) (n ∷ bytes) = take n bytes ∷ parts fuel (drop n bytes)

parts-prefixed :
    (fuel : ℕ) (texts : List Str) → length texts ≤ fuel → parts fuel (prefixed texts) ≡ texts
unfolding parts prefixed
parts-prefixed zero [] h = refl
parts-prefixed zero (s ∷ texts) h = absurd (omega arith)
parts-prefixed (suc fuel) [] h = refl
parts-prefixed (suc fuel) (s ∷ texts) h =
    ap₂ ◌∷◌ (take-append s (prefixed texts))
      (ap (parts fuel) (drop-append s (prefixed texts)) ∙ parts-prefixed fuel texts (omega arith))

length-prefixed : (texts : List Str) → length texts ≤ length (prefixed texts)
unfolding prefixed
length-prefixed [] = omega arith
length-prefixed (s ∷ texts) = omega (arith, length-append s (prefixed texts), length-prefixed texts)

texts_of : List TrustedClient → List Str
texts_of [] = []
texts_of (c ∷ clients) = c.client_device_id ∷ c.client_public_key ∷ c.client_name ∷ texts_of clients

clients_of : List Str → List TrustedClient
clients_of (id ∷ (key ∷ (name ∷ texts))) =
    record { client_device_id = id; client_public_key = key; client_name = name } ∷ clients_of texts
clients_of _ = []

clients_of-texts_of : (clients : List TrustedClient) → clients_of (texts_of clients) ≡ clients
unfolding clients_of texts_of
clients_of-texts_of [] = refl
clients_of-texts_of (c ∷ clients) = ap (◌∷◌ c) (clients_of-texts_of clients)

state_of : List Str → Option AgentState
unfolding clients_of
state_of (id ∷ (private ∷ (public ∷ texts))) = some (record {
  device_id = id;
  private_key = private;
  public_key = public;
  trusted_clients = clients_of texts;
})
state_of _ = none

unfoldable pub coded : StateJson
unfolding prefixed parts texts_of state_of
coded = record {
  to_vec_pretty =
      λ s. prefixed (s.device_id ∷ s.private_key ∷ s.public_key ∷ texts_of s.trusted_clients);
  from_slice = λ bytes. state_of (parts (length bytes) bytes);
}

pub coded_back : (s : AgentState) → coded.from_slice (coded.to_vec_pretty s) ≡ some s
unfolding coded state_of
coded_back s =
    let texts = s.device_id ∷ s.private_key ∷ s.public_key ∷ texts_of s.trusted_clients in
    ap state_of (parts-prefixed (length (prefixed texts)) texts (length-prefixed texts))
    ∙ ap (λ x. some (record s { trusted_clients = x })) (clients_of-texts_of s.trusted_clients)

pub coded_unread : coded.from_slice [] ≡ none
unfolding coded
coded_unread = refl
