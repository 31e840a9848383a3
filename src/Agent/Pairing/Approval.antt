-- ===== src/Agent/Pairing/Approval.antt =====
-- The request that the daemon makes from a code, and the answer that it accepts
-- (components/agent/src/pairing.rs).
use wisp_shell.Prelude.{
  ◌≡◌, ◌≢◌, ◌∙◌, ap, true, none, some, Str, str_eq_iff, str_eq_refl, ok, arith, ℕ,
}
use wisp_shell.Protocol.Messages.{BindingCertificate}
use wisp_shell.Protocol.PairingCode.{normalize_pairing_code}
use wisp_shell.Protocol.Crypto.{Primitives}
use wisp_shell.Cloud.CodePairing.{ApproveCodePairingRequest}
use wisp_shell.Agent.State.{TrustedClient, AgentState, is_trusted}
use wisp_shell.Agent.State.Trust.{is_trusted-trust_client}
use wisp_shell.Agent.Pairing.{
  CloudClient, ResolvedCodePairing, ApprovedBinding, prepare, accept, is_mismatched,
}

-- The daemon saves a state only on an answer for itself and the client, whom it then trusts.
pub accept_cases :
    (state saved : AgentState) (resolved : ResolvedCodePairing) (a : ApprovedBinding)
    → accept state resolved (some a) ≡ ok saved
    → (a.daemon_device_id ≡ state.device_id)
      × (a.client_device_id ≡ resolved.client_device_id)
      × (is_trusted saved resolved.client_device_id resolved.client_public_key ≡ true)
unfolding accept is_mismatched
accept_cases state saved resolved a e = (
  ground (arith, e, str_eq_iff a.daemon_device_id state.device_id),
  ground (arith, e, str_eq_iff a.client_device_id resolved.client_device_id),
  (let trusted : TrustedClient = record {
    client_device_id = resolved.client_device_id;
    client_public_key = resolved.client_public_key;
    client_name = resolved.client_name;
  } in
      ap (λ (x : AgentState). is_trusted x resolved.client_device_id resolved.client_public_key)
        (ground (arith, e))
      ∙ is_trusted-trust_client state trusted resolved.client_device_id resolved.client_public_key
      ∙ ground
          (arith, str_eq_refl resolved.client_device_id, str_eq_refl resolved.client_public_key)),
)

pub no_answer :
    (state saved : AgentState) (resolved : ResolvedCodePairing)
    → accept state resolved none ≢ ok saved
unfolding accept
no_answer state saved resolved = λ e. ground (arith, e)

-- A request is for the client that the code resolves to.
pub resolved-prepare :
    {World : Type 0} (c : Primitives) (cloud : CloudClient World)
    (cert_to_string : BindingCertificate → Str) (state : AgentState) (name code uuid : Str)
    (created_at : ℕ) (w : World) (req : ApproveCodePairingRequest) (resolved : ResolvedCodePairing)
    → prepare c cloud cert_to_string state name code uuid created_at w ≡ ok (req, resolved)
    → (normalize_pairing_code code ≡ ok req.code)
      × (cloud.resolve_code_pairing w req.code ≡ some resolved)
unfolding prepare
resolved-prepare c cloud cert_to_string state name code uuid created_at w req resolved e =
    (ground (arith, e), ground (arith, e))

pub binding_id-prepare :
    {World : Type 0} (c : Primitives) (cloud : CloudClient World)
    (cert_to_string : BindingCertificate → Str) (state : AgentState) (name code uuid : Str)
    (created_at : ℕ) (w : World) (req : ApproveCodePairingRequest) (resolved : ResolvedCodePairing)
    → prepare c cloud cert_to_string state name code uuid created_at w ≡ ok (req, resolved)
    → req.binding_id ≡ uuid
unfolding prepare
binding_id-prepare c cloud cert_to_string state name code uuid created_at w req resolved e =
    ground (arith, e)
