-- ===== src/Cloud/Server/Refinement.antt =====
-- The handlers of components/cloud/src implement the registry of Cloud.Server.Registry.
use mathlib.Core.Path.{fun_ext}
use wisp_shell.Prelude.{
  ◌≡◌, refl, sym, ap, ◌∙◌, Bool, true, false, Option, none, some, List, [], ◌∷◌, Str, ok, err,
  Result, arith,
}
use wisp_shell.Protocol.Crypto.{Primitives}
use wisp_shell.Cloud.Db.{Time, Db, Device, Binding}
use wisp_shell.Cloud.Store.Rows.{Codec}
use wisp_shell.Cloud.Store.RoundTrip.{IsKeyedDb}
use wisp_shell.Cloud.App.{AppState}
use wisp_shell.Cloud.Http.{Answer, after}
use wisp_shell.Cloud.Pairing.{Serde, ApprovePairingRequest, approve}
use wisp_shell.Cloud.CodePairing.{
  ApproveCodePairingRequest, approve_code, record_approval, code_binding,
}
use wisp_shell.Cloud.Bindings.{revoke}
use wisp_shell.Cloud.Devices.{register, update}
use wisp_shell.Cloud.Pairing.{start, claim, permissions_text, revoke_existing_active_bindings}
use wisp_shell.Cloud.CodePairing.{start_code}
use wisp_shell.Cloud.Rendezvous.{rendezvous}
use wisp_shell.Prelude.HashMap.{get}
use wisp_shell.Cloud.Server.{
  Request, register_device, pairing_start, pairing_claim, pairing_approve, code_start, code_approve,
  presence_update, binding_revoke, step, run,
}
use wisp_shell.Cloud.Server.Change.{
  after_cases, inner-persist_or_log, inner-register, inner-start_code, inner-revoke, inner-claim,
  inner-approve_code,
}
use wisp_shell.Cloud.Server.Keyed.{step-IsKeyedDb}
use wisp_shell.Cloud.Server.Registry.{
  Registry, same_pair, bind, unbind, registry, registry-with_binding, registry-revoked,
}

-- What a request does to the registry.
pub data Act : Type 0 where
  idle : Act
  bound : (daemon client id : Str) → Act
  unbound : (id : Str) → Act

unfoldable pub perform : Act → Registry → Registry
perform idle r = r
perform (bound daemon client id) r = bind daemon client id r
perform (unbound id) r = unbind id r

unfoldable pub performs : List Act → Registry → Registry
unfolding perform
performs [] r = r
performs (a ∷ acts) r = performs acts (perform a r)

-- The act that a handler's answer announces.
abbrev approved : Answer Binding → Act
approved (ok (b, s)) = bound b.daemon_device_id b.client_device_id b.binding_id
approved (err e) = idle

abbrev revoked : Str → Answer Binding → Act
revoked id (ok (b, s)) = unbound id
revoked id (err e) = idle

-- The binding that `approve` makes.
abbrev approval_binding : Serde → ApprovePairingRequest → Time → Binding
approval_binding j req now = record {
  binding_id = req.binding_id;
  daemon_device_id = req.daemon_device_id;
  client_device_id = req.client_device_id;
  permissions_json = permissions_text (j.strings_to_string req.permissions);
  binding_cert_json = req.binding_cert_json;
  binding_signature = req.binding_signature;
  created_at = now;
  revoked_at = none;
}

module _ (c : Primitives) (k : Codec) (j : Serde) where
  unfoldable pub act_of : AppState → Request → Act
  act_of s (register_device req created seen) = idle
  act_of s (pairing_start req now) = idle
  act_of s (pairing_claim req now) = idle
  act_of s (pairing_approve req now) = approved (approve k j s req now)
  act_of s (code_start req uuid checked now) = idle
  act_of s (code_approve req checked used now) =
      approved (approve_code c k j s req checked used now)
  act_of s (presence_update req now) = idle
  act_of s (binding_revoke binding_id now) = revoked binding_id (revoke k s binding_id now)

  unfoldable pub acts_of : AppState → List Request → List Act
  unfolding step act_of
  acts_of s [] = []
  acts_of s (r ∷ rs) = act_of s r ∷ acts_of (step c k j s r) rs

  registry-approve_code :
      (s : AppState) (req : ApproveCodePairingRequest) (checked used now : Time) (i : Str)
      → IsKeyedDb s.inner
      → (r : Answer Binding) → approve_code c k j s req checked used now ≡ r
      → registry (after s r).inner.bindings i ≡ perform (approved r) (registry s.inner.bindings) i
  unfolding perform
  registry-approve_code s req checked used now i keyed (err e) p = refl
  registry-approve_code s req checked used now i keyed (ok (v, s')) p =
      let (h, session, q, b, d) = inner-approve_code c k j s req checked used now v s' p in
      let w : registry (record_approval s.inner req h session used now).bindings i
          ≡ bind req.daemon_device_id session.client_device_id req.binding_id
              (registry s.inner.bindings) i =
        unfold record_approval revoke_existing_active_bindings in
        registry-with_binding s.inner now (code_binding req session now) i keyed.bindings refl in
      ap (λ (x : Db). registry x.bindings i) d
      ∙ w
      ∙ ap (λ (x : Binding). perform (approved (ok (x, s'))) (registry s.inner.bindings) i) (sym b)

  registry-revoke :
      (s : AppState) (id : Str) (now : Time) (i : Str)
      → (r : Answer Binding) → revoke k s id now ≡ r
      → registry (after s r).inner.bindings i ≡ perform (revoked id r) (registry s.inner.bindings) i
  unfolding perform
  registry-revoke s id now i (err e) p = refl
  registry-revoke s id now i (ok (v, s')) p =
      rw (inner-revoke k s id now v s' p) (registry-revoked s.inner.bindings now id i)

  abbrev Same : AppState → AppState → Type 0
  Same s t = t.inner.bindings ≡ s.inner.bindings

  -- With each map holding its values under the ids that they carry, a request changes which daemon
  -- and client an id binds as its act says: an approval that succeeds binds the new id and unbinds
  -- the pair's others, a revocation that succeeds unbinds its id, and all else changes nothing.
  pub step-refines :
      (s : AppState) (r : Request) (i : Str)
      → IsKeyedDb s.inner
      → registry (step c k j s r).inner.bindings i
        ≡ perform (act_of s r) (registry s.inner.bindings) i
  unfolding step act_of perform
  step-refines s (register_device req created seen) i keyed =
      ap (λ m. registry m i)
        (after_cases (Same s) s (register k s req created seen) refl
          λ v s' e. ap (λ (d : Db). d.bindings) (inner-register k s req created seen v s' e))
  step-refines s (pairing_start req now) i keyed = unfold start in rw (inner-persist_or_log k) refl
  step-refines s (pairing_claim req now) i keyed =
      ap (λ m. registry m i)
        (after_cases (Same s) s (claim s req now) refl
          λ v s' e. ap (λ (d : Db). d.bindings) (inner-claim s req now v s' e))
  step-refines s (pairing_approve req now) i keyed =
      unfold approve revoke_existing_active_bindings in
      rw (inner-persist_or_log k)
        (registry-with_binding s.inner now (approval_binding j req now) i keyed.bindings refl)
  step-refines s (code_start req uuid checked now) i keyed =
      ap (λ m. registry m i)
        (after_cases (Same s) s (start_code k s req uuid checked now) refl
          λ v s' e. ap (λ (d : Db). d.bindings) (inner-start_code k s req uuid checked now v s' e))
  step-refines s (code_approve req checked used now) i keyed =
      registry-approve_code s req checked used now i keyed _ refl
  step-refines s (presence_update req now) i keyed =
      unfold update in rw (inner-persist_or_log k) refl
  step-refines s (binding_revoke binding_id now) i keyed = registry-revoke s binding_id now i _ refl

  -- With each map holding its values under the ids that they carry, the registry after any requests
  -- is the one that their acts make of the registry before: an approval that succeeds binds the new
  -- id and unbinds the pair's others, a revocation that succeeds unbinds its id, and all else changes
  -- nothing.
  pub run-refines :
      (s : AppState) (rs : List Request) (i : Str)
      → IsKeyedDb s.inner
      → registry (run c k j s rs).inner.bindings i
        ≡ performs (acts_of s rs) (registry s.inner.bindings) i
  unfolding run acts_of performs
  run-refines s [] i keyed = refl
  run-refines s (r ∷ rs) i keyed =
      run-refines (step c k j s r) rs i (step-IsKeyedDb c k j s r keyed)
      ∙ ap (λ q. performs (acts_of (step c k j s r) rs) q i) (fun_ext λ n. step-refines s r n keyed)

abbrev pub is_ok : {E A : Type 0} → Result E A → Bool
is_ok (ok a) = true
is_ok (err e) = false

-- For a registered daemon, the rendezvous answers a client under an id exactly when the registry
-- binds the two under it.
pub rendezvous-registry :
    (s : AppState) (daemon client id : Str) (v : Device)
    → get s.inner.devices daemon ≡ some v
    → is_ok (rendezvous s daemon client id) ≡ same_pair daemon client (registry s.inner.bindings id)
unfolding rendezvous
rendezvous-registry s daemon client id v known = by_binding (get s.inner.bindings id) refl
  where
    by_binding :
        (o : Option Binding)
        → get s.inner.bindings id ≡ o
        → is_ok (rendezvous s daemon client id)
          ≡ same_pair daemon client (registry s.inner.bindings id)
    by_binding none p = rw (rendezvous, known, p) refl
    by_binding (some b) p = ground (arith, known, p)
