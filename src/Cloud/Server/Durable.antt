-- ===== src/Cloud/Server/Durable.antt =====
-- After every request the file holds the data: a restart gives back the state that was answered.
use wisp_shell.Prelude.{◌≡◌, refl, ◌⊎◌, inl, inr, Option, none, some, Str, ok, arith, some}
use wisp_shell.Protocol.Crypto.{Primitives}
use wisp_shell.Cloud.Db.{Time, Device, Binding, CodePairingSession}
use wisp_shell.Cloud.Store.{Tables, save, load}
use wisp_shell.Cloud.Store.Rows.{Codec, IsLawful}
use wisp_shell.Cloud.Store.RoundTrip.{IsKeyedDb, load-save}
use wisp_shell.Cloud.App.{AppState, persist_or_log}
use wisp_shell.Cloud.Devices.{RegisterDeviceRequest, register, update}
use wisp_shell.Cloud.Pairing.{Serde, ClaimPairingRequest, start, claim, approve}
use wisp_shell.Cloud.CodePairing.{
  StartCodePairingRequest, ApproveCodePairingRequest, start_code, approve_code,
}
use wisp_shell.Cloud.Bindings.{revoke}
use wisp_shell.Cloud.Server.Change.{after_cases, inner-persist_or_log, inner-claim}
use wisp_shell.Cloud.Server.{
  Request, register_device, pairing_start, pairing_claim, pairing_approve, code_start, code_approve,
  presence_update, binding_revoke, step,
}

-- The file, if there is one, loads to the data in memory.
abbrev pub IsDurable : Codec → AppState → Type 0
IsDurable k s = (tables : Tables) → s.store ≡ some tables → load k tables ≡ ok s.inner

-- A step leaves data and file alone, or ends with a save.
abbrev pub Persists : Codec → AppState → AppState → Type 0
Persists k s s' =
    ((s'.inner ≡ s.inner) × (s'.store ≡ s.store))
    ⊎ (s' ≡ persist_or_log k (record s' { store = s.store }))

pub persist_none : (k : Codec) (s : AppState) → s.store ≡ none → (persist_or_log k s).store ≡ none
unfolding persist_or_log
persist_none k s p = ground (arith, p)

persist_some :
    (k : Codec) (s : AppState) (old tables : Tables)
    → s.store ≡ some old
    → save k s.inner ≡ ok tables
    → persist_or_log k s ≡ record s { store = some tables }
unfolding persist_or_log
persist_some k s old tables p e = rw (p, persist_or_log) (ground (arith, e))

pub persist-IsDurable :
    (k : Codec) (lawful : IsLawful k) (s : AppState)
    → IsKeyedDb s.inner
    → IsDurable k (persist_or_log k s)
persist-IsDurable k lawful s h = by_store s.store refl
  where
    by_store : (o : Option Tables) → s.store ≡ o → IsDurable k (persist_or_log k s)
    by_store none p tables e = absurd (cc (persist_none k s p))
    by_store (some old) p tables e =
        let (t, written, read) = load-save lawful s.inner h in
        let q = persist_some k s old t p written in ground (arith, q, read)

pub events-persist_or_log : (k : Codec) (s : AppState) → (persist_or_log k s).events ≡ s.events
unfolding persist_or_log
events-persist_or_log k s = ground arith

pub sent-persist_or_log : (k : Codec) (s : AppState) → (persist_or_log k s).sent ≡ s.sent
unfolding persist_or_log
sent-persist_or_log k s = ground arith

-- A state that a save leaves is the save of itself over the old file.
persist_self :
    (k : Codec) (t : AppState)
    → persist_or_log k t ≡ persist_or_log k (record (persist_or_log k t) { store = t.store })
persist_self k t = cc (inner-persist_or_log k t, events-persist_or_log k t, sent-persist_or_log k t)

ruleset saves = (arith, inner-persist_or_log, events-persist_or_log, sent-persist_or_log)

module _ (c : Primitives) (k : Codec) (j : Serde) (s : AppState) where
  abbrev Ends : AppState → Type 0
  Ends = Persists k s

  register-Persists :
      (req : RegisterDeviceRequest) (created seen : Time) (v : Device) (s' : AppState)
      → register k s req created seen ≡ ok (v, s')
      → s' ≡ persist_or_log k (record s' { store = s.store })
  unfolding register
  register-Persists req created seen v s' e = grind saves

  start_code-Persists :
      (req : StartCodePairingRequest) (uuid : Str) (checked now : Time) (v : CodePairingSession)
      (s' : AppState)
      → start_code k s req uuid checked now ≡ ok (v, s')
      → s' ≡ persist_or_log k (record s' { store = s.store })
  unfolding start_code
  start_code-Persists req uuid checked now v s' e = grind saves

  approve_code-Persists :
      (req : ApproveCodePairingRequest) (checked used now : Time) (v : Binding) (s' : AppState)
      → approve_code c k j s req checked used now ≡ ok (v, s')
      → s' ≡ persist_or_log k (record s' { store = s.store })
  unfolding approve_code
  approve_code-Persists req checked used now v s' e = grind saves

  revoke-Persists :
      (binding_id : Str) (now : Time) (v : Binding) (s' : AppState)
      → revoke k s binding_id now ≡ ok (v, s')
      → s' ≡ persist_or_log k (record s' { store = s.store })
  unfolding revoke
  revoke-Persists binding_id now v s' e = grind saves

  store-claim :
      (req : ClaimPairingRequest) (now : Time) (v : Str) (s' : AppState)
      → claim s req now ≡ ok (v, s')
      → s'.store ≡ s.store
  unfolding claim
  store-claim req now v s' e = ground arith

  pub step-Persists : (r : Request) → Persists k s (step c k j s r)
  unfolding step
  step-Persists (register_device req created seen) =
      after_cases Ends s (register k s req created seen) (inl (refl, refl))
        λ v s' e. inr (register-Persists req created seen v s' e)
  step-Persists (pairing_start req now) = unfold start in inr (persist_self k _)
  step-Persists (pairing_claim req now) =
      after_cases Ends s (claim s req now) (inl (refl, refl))
        λ v s' e. inl (inner-claim s req now v s' e, store-claim req now v s' e)
  step-Persists (pairing_approve req now) = unfold approve in inr (persist_self k _)
  step-Persists (code_start req uuid checked now) =
      after_cases Ends s (start_code k s req uuid checked now) (inl (refl, refl))
        λ v s' e. inr (start_code-Persists req uuid checked now v s' e)
  step-Persists (code_approve req checked used now) =
      after_cases Ends s (approve_code c k j s req checked used now) (inl (refl, refl))
        λ v s' e. inr (approve_code-Persists req checked used now v s' e)
  step-Persists (presence_update req now) = unfold update in inr (persist_self k _)
  step-Persists (binding_revoke binding_id now) =
      after_cases Ends s (revoke k s binding_id now) (inl (refl, refl))
        λ v s' e. inr (revoke-Persists binding_id now v s' e)
