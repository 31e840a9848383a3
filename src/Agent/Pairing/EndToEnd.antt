-- ===== src/Agent/Pairing/EndToEnd.antt =====
-- The daemon (components/agent/src) against the cloud (components/cloud/src): the calls of
-- `CloudClient` reach the cloud's handlers, whose clock readings are `Clock`.
use wisp_shell.Prelude.{
  ◌≡◌, ◌∙◌, ap, refl, Bool, true, false, Option, none, some, Str, text, str_eq_refl, Result, ok,
  err, arith, ℕ,
}
use wisp_shell.Prelude.HashMap.{HashMap, get, insert, get-insert}
use wisp_shell.Protocol.Failure.{Failure}
use wisp_shell.Protocol.Messages.{BindingCertificate}
use wisp_shell.Protocol.PairingCode.{normalize_pairing_code}
use wisp_shell.Protocol.Crypto.{Primitives}
use wisp_shell.Cloud.Db.{Time, Db, Binding, Json}
use wisp_shell.Cloud.Store.Rows.{Codec}
use wisp_shell.Cloud.App.{AppState}
use wisp_shell.Cloud.Http.{Answer, Rejection}
use wisp_shell.Cloud.Pairing.{Serde}
use wisp_shell.Cloud.CodePairing.{
  ApproveCodePairingRequest, ResolveCodePairingResponse, resolve_code, approve_code,
}
use wisp_shell.Cloud.Devices.{register, update}
use wisp_shell.Cloud.Rendezvous.{RendezvousInfo, rendezvous}
use wisp_shell.Cloud.Server.Change.{inner-persist_or_log, inner-approve_code}
use wisp_shell.Cloud.Server.Revocation.{rendezvous-approve_code}
use wisp_shell.Agent.State.{AgentState, is_trusted}
use wisp_shell.Agent.Pairing.{
  CloudClient, ResolvedCodePairing, ApprovedBinding, prepare, accept, approve_pairing_code,
  publish_presence,
}
use wisp_shell.Agent.Pairing.Approval.{
  accept_cases, no_answer, resolved-prepare, binding_id-prepare,
}

pub record Clock : Type 0 where
  pub resolved : Time
  pub checked : Time
  pub used : Time
  pub created : Time
  pub seen : Time
  pub now : Time

-- The fields that the daemon reads of the cloud's answers.
abbrev pub resolved_of : Result Rejection ResolveCodePairingResponse → Option ResolvedCodePairing
resolved_of (err e) = none
resolved_of (ok r) = some (record {
  pair_id = r.pair_id;
  client_device_id = r.client_device_id;
  client_public_key = r.client_public_key;
  client_name = r.client_name;
})

abbrev pub approved_of : AppState → Answer Binding → Option ApprovedBinding × AppState
approved_of s (err e) = (none, s)
approved_of s (ok (b, s')) = (
  some (record {
    binding_id = b.binding_id;
    daemon_device_id = b.daemon_device_id;
    client_device_id = b.client_device_id;
    binding_cert_json = b.binding_cert_json;
    binding_signature = b.binding_signature;
  }),
  s',
)

abbrev pub succeeded : {A : Type 0} → AppState → Answer A → Bool × AppState
succeeded s (err e) = (false, s)
succeeded s (ok (a, s')) = (true, s')

get_own : {V : Type 0} (m : HashMap V) (id : Str) (v : V) → get (insert m id v) id ≡ some v
get_own m id v = rw get-insert (ground (arith, str_eq_refl id))

module _ (c : Primitives) (k : Codec) (j : Serde) (clock : Clock) where
  -- The cloud behind the calls.
  abbrev pub cloud_handlers : CloudClient AppState
  cloud_handlers = record {
    resolve_code_pairing = λ s code. resolved_of (resolve_code c s code clock.resolved);
    approve_code_pairing =
        λ s req. approved_of s (approve_code c k j s req clock.checked clock.used clock.now);
    register_device = λ s req. succeeded s (register k s req clock.created clock.seen);
    update_presence = λ s req. succeeded s (update k s req clock.now);
  }

  inner-publish_presence :
      (name version : Str) (state : AgentState) (addr : Json) (s s' : AppState)
      → publish_presence cloud_handlers name version state addr s ≡ (true, s')
      → s'.inner ≡ record (s.inner) {
        devices = insert s.inner.devices state.device_id (record {
          device_id = state.device_id;
          kind = text "daemon";
          display_name = name;
          public_key = state.public_key;
          created_at = clock.created;
          last_seen_at = some clock.seen;
        });
        presence = insert s.inner.presence state.device_id (record {
          device_id = state.device_id;
          status = text "online";
          iroh_node_addr_json = some addr;
          agent_version = some version;
          updated_at = clock.now;
        });
      }
  unfolding publish_presence register update
  inner-publish_presence name version state addr s s' e = grind (arith, inner-persist_or_log)

  -- After a daemon published its presence, each rendezvous with it that is answered gives its key
  -- and the address that it published, and says that it is online.
  pub rendezvous-publish_presence :
      (name version : Str) (state : AgentState) (addr : Json) (s s' : AppState) (client id : Str)
      (info : RendezvousInfo)
      → publish_presence cloud_handlers name version state addr s ≡ (true, s')
      → rendezvous s' state.device_id client id ≡ ok info
      → (info.status ≡ text "online")
        × (info.iroh_node_addr ≡ some addr)
        × (info.daemon_public_key ≡ state.public_key)
  unfolding rendezvous
  rendezvous-publish_presence name version state addr s s' client id info e r =
      let p = inner-publish_presence name version state addr s s' e in
      let d =
        ap (λ (x : Db). get x.devices state.device_id) p
        ∙ get_own s.inner.devices state.device_id _ in
      let q =
        ap (λ (x : Db). get x.presence state.device_id) p
        ∙ get_own s.inner.presence state.device_id _ in
      (ground (arith, r, d, q), ground (arith, r, d, q), ground (arith, r, d, q))

  -- The client that the code resolves to is trusted with its key, and the rendezvous answers it.
  pub record IsPaired (state saved : AgentState) (code uuid : Str) (s s' : AppState) : Type 0 where
    pub normalized : Str
    pub client : ResolvedCodePairing
    pub info : RendezvousInfo
    pub typed : normalize_pairing_code code ≡ ok normalized
    pub resolved : resolved_of (resolve_code c s normalized clock.resolved) ≡ some client
    pub trusted : is_trusted saved client.client_device_id client.client_public_key ≡ true
    pub answers : rendezvous s' state.device_id client.client_device_id uuid ≡ ok info

  -- When the approval of a code succeeds against the cloud, the daemon saves a state in which the
  -- client that the code resolves to is trusted with its key, and the cloud then answers this
  -- client's rendezvous with the daemon under the id of the new binding.
  pub rendezvous-approve_pairing_code :
      (cert_to_string : BindingCertificate → Str) (state saved : AgentState) (name code uuid : Str)
      (created_at : ℕ) (s s' : AppState)
      → approve_pairing_code c cloud_handlers cert_to_string state name code uuid created_at s
        ≡ (ok saved, s')
      → IsPaired state saved code uuid s s'
  unfolding approve_pairing_code
  rendezvous-approve_pairing_code cert_to_string state saved name code uuid created_at s s' e =
      by_request (prepare c cloud_handlers cert_to_string state name code uuid created_at s) refl
    where
      by_request :
          (r : Result Failure (ApproveCodePairingRequest × ResolvedCodePairing))
          → prepare c cloud_handlers cert_to_string state name code uuid created_at s ≡ r
          → IsPaired state saved code uuid s s'
      by_request (err x) p = absurd (ground (arith, e, p))
      by_request (ok (req, resolved)) p =
          by_answer (approve_code c k j s req clock.checked clock.used clock.now) refl
        where
          by_answer :
              (r : Answer Binding)
              → approve_code c k j s req clock.checked clock.used clock.now ≡ r
              → IsPaired state saved code uuid s s'
          by_answer (err x) q = absurd (no_answer state saved resolved (ground (arith, e, p, q)))
          by_answer (ok (b, t)) q =
              let a : ApprovedBinding = record {
                binding_id = b.binding_id;
                daemon_device_id = b.daemon_device_id;
                client_device_id = b.client_device_id;
                binding_cert_json = b.binding_cert_json;
                binding_signature = b.binding_signature;
              } in
              let f : accept state resolved (some a) ≡ ok saved = ground (arith, e, p, q) in
              let g : t ≡ s' = ground (arith, e, p, q) in
              let (of_daemon, of_client, trusts) = accept_cases state saved resolved a f in
              let (h, session, checks, of_code, d) =
                inner-approve_code c k j s req clock.checked clock.used clock.now b t q in
              let (info, answers) =
                rendezvous-approve_code c k j s t req clock.checked clock.used clock.now b q in
              let of_id : b.binding_id ≡ uuid =
                ap (λ (x : Binding). x.binding_id) of_code
                ∙ binding_id-prepare c cloud_handlers cert_to_string state name code uuid created_at
                    s req resolved p in
              let (typed, found) =
                resolved-prepare c cloud_handlers cert_to_string state name code uuid created_at s
                  req resolved p in
              record {
                normalized = req.code;
                client = resolved;
                info = info;
                typed = typed;
                resolved = found;
                trusted = trusts;
                answers = cc (answers, of_daemon, of_client, of_id, g);
              }
