-- ===== src/Agent/Pairing.antt =====
-- The daemon's side of the cloud: components/agent/src/cloud_client.rs, `approve_pairing_code` of
-- pairing.rs, `publish_presence` of transport_iroh.rs and `revoke` of main.rs. HTTP and its JSON
-- carry a request's fields unchanged; the daemon's file is left out: a state that was saved is the
-- answer. `uuid` and `created_at` are what `Uuid::new_v4()` and `Utc::now()` give.
pub mod Approval
pub mod EndToEnd
use wisp_shell.Prelude.{
  ℕ, ◌||◌, not, Bool, true, false, Option, none, some, List, [], ◌∷◌, Str, text, str_eq, filter,
  Result, ok, err, ok_or, ensure, ◌>>=◌, ◌>>◌, if◌then◌else◌,
}
use wisp_shell.Protocol.Failure.{Failure, cloud_error, mismatched_binding}
use wisp_shell.Protocol.Messages.{BindingCertificate}
use wisp_shell.Protocol.Crypto.{Primitives}
use wisp_shell.Protocol.PairingCode.{normalize_pairing_code}
use wisp_shell.Protocol.Signing.{from_private_key_b64, sign_b64}
use wisp_shell.Cloud.Db.{Json}
use wisp_shell.Cloud.CodePairing.{ApproveCodePairingRequest}
use wisp_shell.Cloud.Devices.{RegisterDeviceRequest, PresenceUpdateRequest}
use wisp_shell.Agent.Config.{is_empty}
use wisp_shell.Agent.State.{TrustedClient, AgentState, trust_client}

pub record ResolvedCodePairing : Type 0 where
  pub pair_id : Str
  pub client_device_id : Str
  pub client_public_key : Str
  pub client_name : Str

pub record ApprovedBinding : Type 0 where
  pub binding_id : Str
  pub daemon_device_id : Str
  pub client_device_id : Str
  pub binding_cert_json : Str
  pub binding_signature : Str

-- `CloudClient`: the calls to a cloud in some state, and the state that each leaves. An error is
-- none: the transport's, or a status that is not a success.
pub record CloudClient (World : Type 0) : Type 0 where
  pub resolve_code_pairing : World → Str → Option ResolvedCodePairing
  pub approve_code_pairing : World → ApproveCodePairingRequest → Option ApprovedBinding × World
  pub register_device : World → RegisterDeviceRequest → Bool × World
  pub update_presence : World → PresenceUpdateRequest → Bool × World

-- The answer that the daemon expects.
unfoldable pub is_mismatched : AgentState → ResolvedCodePairing → ApprovedBinding → Bool
is_mismatched state resolved approved =
    not (str_eq approved.daemon_device_id state.device_id)
    || not (str_eq approved.client_device_id resolved.client_device_id)
    || is_empty approved.binding_cert_json
    || is_empty approved.binding_signature

-- The cloud's answer to an approval, and the state that is saved on it.
unfoldable pub accept :
    AgentState → ResolvedCodePairing → Option ApprovedBinding → Result Failure AgentState
unfolding is_mismatched trust_client
accept state resolved answer = do
  approved ← ok_or answer cloud_error
  let trusted = trust_client state (record {
    client_device_id = resolved.client_device_id;
    client_public_key = resolved.client_public_key;
    client_name = resolved.client_name;
  })
  ensure (not (is_mismatched state resolved approved)) mismatched_binding
  ok trusted

module _ {World : Type 0} (c : Primitives) (cloud : CloudClient World) where
  -- The request and the client that it is for, from a code.
  unfoldable pub prepare :
      (BindingCertificate → Str)
      → AgentState
      → (device_name code uuid : Str) → ℕ
      → World
      → Result Failure (ApproveCodePairingRequest × ResolvedCodePairing)
  prepare cert_to_string state device_name code uuid created_at w = do
    normalized ← normalize_pairing_code code
    resolved ← ok_or (cloud.resolve_code_pairing w normalized) cloud_error
    let cert : BindingCertificate = record {
      binding_id = uuid;
      daemon_device_id = state.device_id;
      daemon_public_key = state.public_key;
      client_device_id = resolved.client_device_id;
      client_public_key = resolved.client_public_key;
      permissions = text "terminal" ∷ [];
      created_at = created_at;
    }
    let cert_json = cert_to_string cert
    keys ← from_private_key_b64 c state.private_key
    ok (
      record {
        code = normalized;
        daemon_device_id = state.device_id;
        daemon_public_key = state.public_key;
        daemon_name = device_name;
        binding_id = uuid;
        binding_cert_json = cert_json;
        binding_signature = sign_b64 c keys cert_json;
      },
      resolved,
    )

  -- The state that is saved, if it comes to that, and the cloud after the calls.
  unfoldable pub approve_pairing_code :
      (BindingCertificate → Str)
      → AgentState
      → (device_name code uuid : Str) → ℕ
      → World
      → Result Failure AgentState × World
  unfolding prepare accept
  approve_pairing_code cert_to_string state device_name code uuid created_at w =
      elim (prepare cert_to_string state device_name code uuid created_at w) [
        | err e ↦ (err e, w)
        | ok (req, resolved) ↦
            let (answer, w') = cloud.approve_code_pairing w req in
            (accept state resolved answer, w')
      ]

module _ {World : Type 0} (cloud : CloudClient World) where
  -- `addr` is the JSON of the endpoint's address.
  unfoldable pub publish_presence :
      (device_name agent_version : Str) → AgentState → Json → World → Bool × World
  publish_presence device_name agent_version state addr w =
      let (registered, w') = cloud.register_device w (record {
        device_id = state.device_id;
        kind = text "daemon";
        display_name = device_name;
        public_key = state.public_key;
      }) in
      if registered
      then cloud.update_presence w' (record {
        device_id = state.device_id;
        status = text "online";
        iroh_node_addr_json = some addr;
        agent_version = some agent_version;
      })
      else (false, w')

-- `devices revoke`: the state that is saved.
unfoldable pub revoke : AgentState → Str → AgentState
unfolding filter
revoke state client_id = record state {
  trusted_clients =
      filter (λ (c : TrustedClient). not (str_eq c.client_device_id client_id))
        state.trusted_clients;
}
