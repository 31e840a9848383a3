-- ===== src/Cloud/Server/Change.antt =====
-- What a request can do to the data: the cases that the invariants are proved by.
use wisp_shell.Prelude.{ap, sym, ◌≡◌, refl, Option, none, some, Str, Result, ok, err, arith}
use wisp_shell.Prelude.HashMap.{insert, modify}
use wisp_shell.Protocol.Crypto.{Primitives}
use wisp_shell.Cloud.Db.{Time, Db, Device, PairingSession, CodePairingSession, Binding, Presence}
use wisp_shell.Cloud.Store.{Tables}
use wisp_shell.Cloud.Store.Rows.{Codec}
use wisp_shell.Cloud.App.{AppState, persist_or_log}
use wisp_shell.Cloud.Http.{Answer, Rejection, after}
use wisp_shell.Cloud.Devices.{RegisterDeviceRequest, register, update}
use wisp_shell.Cloud.Pairing.{
  Serde, ClaimPairingRequest, start, claim, approve, revoke_existing_active_bindings,
}
use wisp_shell.Cloud.CodePairing.{
  StartCodePairingRequest, ApproveCodePairingRequest, start_code, approve_code, check_approval,
  record_approval, code_binding,
}
use wisp_shell.Cloud.Bindings.{revoke}
use wisp_shell.Cloud.Server.{
  Request, register_device, pairing_start, pairing_claim, pairing_approve, code_start, code_approve,
  presence_update, binding_revoke, step,
}

-- Saving changes the file only.
pub inner-persist_or_log : (k : Codec) (s : AppState) → (persist_or_log k s).inner ≡ s.inner
unfolding persist_or_log
inner-persist_or_log k s = by_store s.store refl
  where
    by_store : (o : Option Tables) → s.store ≡ o → (persist_or_log k s).inner ≡ s.inner
    by_store none e = rw (e, persist_or_log)
    by_store (some t) e = rw (e, persist_or_log)

-- A new binding takes the place of the active ones of its daemon and client.
abbrev pub with_binding : Db → Time → Binding → Db
with_binding d now b =
    let d' =
      revoke_existing_active_bindings d b.daemon_device_id b.client_device_id b.binding_id now in
    record d' { bindings = insert d'.bindings b.binding_id b }

-- The code hash whose session a request may replace.
abbrev pub renewed_hash : Request → Option Str
renewed_hash (register_device req created seen) = none
renewed_hash (pairing_start req now) = none
renewed_hash (pairing_claim req now) = none
renewed_hash (pairing_approve req now) = none
renewed_hash (code_start req uuid checked now) = some req.code_hash
renewed_hash (code_approve req checked used now) = none
renewed_hash (presence_update req now) = none
renewed_hash (binding_revoke binding_id now) = none

-- What a request may do to the data.
pub data Change (r : Request) (d : Db) : Db → Type 0 where
  unchanged : Change r d d
  device : (v : Device) → Change r d (record d { devices = insert d.devices v.device_id v })
  pairing :
      (v : PairingSession) → Change r d (record d { pairings = insert d.pairings v.pair_id v })
  code_pairing :
      (v : CodePairingSession)
      → renewed_hash r ≡ some v.code_hash
      → Change r d (record d { code_pairings = insert d.code_pairings v.code_hash v })
  presence : (v : Presence) → Change r d (record d { presence = insert d.presence v.device_id v })
  approval :
      (pair_id : Str) (now : Time) (b : Binding)
      → Change r d (
          with_binding
            (record d {
              pairings =
                  modify d.pairings pair_id
                    (λ (p : PairingSession). record p { used_at = some now });
            })
            now
            b)
  code_approval :
      (req : ApproveCodePairingRequest) (code_hash : Str) (session : CodePairingSession)
      (used now : Time)
      → Change r d (record_approval d req code_hash session used now)
  revocation :
      (binding_id : Str) (now : Time)
      → Change r d (record d {
        bindings =
            modify d.bindings binding_id (λ (b : Binding). record b { revoked_at = some now });
      })

-- A handler that fails leaves the state as it was.
pub after_cases :
    {A : Type 0} (P : AppState → Type 0) (s : AppState) (r : Answer A)
    → P s
    → ((a : A) (s' : AppState) → r ≡ ok (a, s') → P s')
    → P (after s r)
after_cases P s (ok (a, s')) failed done = done a s' refl
after_cases P s (err e) failed done = failed

module _ (k : Codec) (s : AppState) where
  pub inner-register :
      (req : RegisterDeviceRequest) (created seen : Time) (v : Device) (s' : AppState)
      → register k s req created seen ≡ ok (v, s')
      → s'.inner ≡ record (s.inner) { devices = insert s.inner.devices v.device_id v }
  unfolding register
  inner-register req created seen v s' e = grind (arith, inner-persist_or_log)

  pub inner-start_code :
      (req : StartCodePairingRequest) (uuid : Str) (checked now : Time) (v : CodePairingSession)
      (s' : AppState)
      → start_code k s req uuid checked now ≡ ok (v, s')
      → s'.inner ≡ record (s.inner) { code_pairings = insert s.inner.code_pairings v.code_hash v }
  unfolding start_code
  inner-start_code req uuid checked now v s' e = grind (arith, inner-persist_or_log)

  code_hash-start_code :
      (req : StartCodePairingRequest) (uuid : Str) (checked now : Time) (v : CodePairingSession)
      (s' : AppState)
      → start_code k s req uuid checked now ≡ ok (v, s')
      → v.code_hash ≡ req.code_hash
  unfolding start_code
  code_hash-start_code req uuid checked now v s' e = ground arith

  pub inner-revoke :
      (binding_id : Str) (now : Time) (v : Binding) (s' : AppState)
      → revoke k s binding_id now ≡ ok (v, s')
      → s'.inner ≡ record (s.inner) {
        bindings =
            modify s.inner.bindings binding_id
              (λ (b : Binding). record b { revoked_at = some now });
      }
  unfolding revoke
  inner-revoke binding_id now v s' e = grind (arith, inner-persist_or_log)

pub inner-claim :
    (s : AppState) (req : ClaimPairingRequest) (now : Time) (v : Str) (s' : AppState)
    → claim s req now ≡ ok (v, s')
    → s'.inner ≡ s.inner
unfolding claim
inner-claim s req now v s' e = ground arith

pub inner-approve_code :
    (c : Primitives) (k : Codec) (j : Serde) (s : AppState) (req : ApproveCodePairingRequest)
    (checked used now : Time) (v : Binding) (s' : AppState)
    → approve_code c k j s req checked used now ≡ ok (v, s')
    → (code_hash : Str) × (session : CodePairingSession) × (check_approval c j s.inner req checked
        ≡ ok (code_hash, session))
      × (v ≡ code_binding req session now)
      × (s'.inner ≡ record_approval s.inner req code_hash session used now)
unfolding approve_code
inner-approve_code c k j s req checked used now v s' e =
    by_check (check_approval c j s.inner req checked) refl
  where
    by_check :
        (r : Result Rejection (Str × CodePairingSession))
        → check_approval c j s.inner req checked ≡ r
        → (code_hash : Str) × (session : CodePairingSession) × (check_approval c j s.inner req
              checked
            ≡ ok (code_hash, session))
          × (v ≡ code_binding req session now)
          × (s'.inner ≡ record_approval s.inner req code_hash session used now)
    by_check (ok (h, session)) p =
        (h, session, p, ground (arith, p), grind (arith, p, inner-persist_or_log))
    by_check (err x) p = absurd (ground (arith, p))

module _ (c : Primitives) (k : Codec) (j : Serde) (s : AppState) where
  abbrev Keeps : Request → AppState → Type 0
  Keeps r t = Change r s.inner t.inner

  pub step-Change : (r : Request) → Change r s.inner (step c k j s r).inner
  unfolding step
  step-Change (register_device req created seen) =
      after_cases (Keeps (register_device req created seen)) s (register k s req created seen)
        unchanged λ v s' e. rw (inner-register k s req created seen v s' e) (device v)
  step-Change (pairing_start req now) = unfold start in rw (inner-persist_or_log k) (pairing _)
  step-Change (pairing_claim req now) =
      after_cases (Keeps (pairing_claim req now)) s (claim s req now) unchanged
        λ v s' e. rw (inner-claim s req now v s' e) unchanged
  step-Change (pairing_approve req now) =
      unfold approve in rw (inner-persist_or_log k) (approval req.pair_id now _)
  step-Change (code_start req uuid checked now) =
      after_cases (Keeps (code_start req uuid checked now)) s (start_code k s req uuid checked now)
        unchanged
        λ v s' e.
          rw (inner-start_code k s req uuid checked now v s' e)
            (code_pairing v (ap some (sym (code_hash-start_code k s req uuid checked now v s' e))))
  step-Change (code_approve req checked used now) =
      after_cases (Keeps (code_approve req checked used now)) s
        (approve_code c k j s req checked used now) unchanged
        λ v s' e.
          let (h, session, p, b, d) = inner-approve_code c k j s req checked used now v s' e in
          rw d (code_approval req h session used now)
  step-Change (presence_update req now) = unfold update in rw (inner-persist_or_log k) (presence _)
  step-Change (binding_revoke binding_id now) =
      after_cases (Keeps (binding_revoke binding_id now)) s (revoke k s binding_id now) unchanged
        λ v s' e. rw (inner-revoke k s binding_id now v s' e) (revocation binding_id now)
