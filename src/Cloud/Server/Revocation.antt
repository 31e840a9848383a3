-- ===== src/Cloud/Server/Revocation.antt =====
-- What revocation and approval do to the rendezvous (components/cloud/src).
use wisp_shell.Prelude.{
  sym, ◌∙◌, Option-cases, inl, inr, ◌≡◌, refl, ap, some, Str, str_eq_refl, ok, err, arith,
}
use wisp_shell.Prelude.HashMap.{HashMap, get, modify, get-modify, get-insert}
use wisp_shell.Protocol.ErrorCode.{device_revoked}
use wisp_shell.Protocol.Crypto.{Primitives}
use wisp_shell.Cloud.Db.{Time, Db, Binding, Device, CodePairingSession}
use wisp_shell.Cloud.Store.Rows.{Codec}
use wisp_shell.Cloud.App.{AppState}
use wisp_shell.Cloud.Pairing.{Serde, revoke_existing_active_bindings}
use wisp_shell.Cloud.CodePairing.{
  ApproveCodePairingRequest, approve_code, record_approval, or_insert, code_binding,
}
use wisp_shell.Cloud.Http.{rejection, forbidden}
use wisp_shell.Cloud.Bindings.{revoke}
use wisp_shell.Cloud.Server.Change.{inner-revoke, inner-approve_code}
use wisp_shell.Cloud.Rendezvous.{RendezvousInfo, rendezvous}
use wisp_shell.Cloud.Rendezvous.Admission.{IsBound, rendezvous_answers}

-- After a binding was revoked, the rendezvous of its client with its daemon, a registered device,
-- is refused as device_revoked.
pub rendezvous-revoke :
    (k : Codec) (s s' : AppState) (id : Str) (now : Time) (v : Binding) (d : Device)
    → revoke k s id now ≡ ok (v, s')
    → get s.inner.devices v.daemon_device_id ≡ some d
    → rendezvous s' v.daemon_device_id v.client_device_id id
      ≡ err (rejection forbidden device_revoked)
unfolding rendezvous revoke
rendezvous-revoke k s s' id now v d e known =
    let p = inner-revoke k s id now v s' e in
    let b : s'.inner.bindings
        ≡ modify s.inner.bindings id (λ (b : Binding). record b { revoked_at = some now }) =
      ap (λ (x : Db). x.bindings) p in
    let q : s'.inner.devices ≡ s.inner.devices = ap (λ (x : Db). x.devices) p in
    ground (
      arith,
      e,
      b,
      q,
      known,
      str_eq_refl id,
      str_eq_refl v.daemon_device_id,
      str_eq_refl v.client_device_id,
      get-modify s.inner.bindings id id (λ (b : Binding). record b { revoked_at = some now }),
    )

or_insert-known :
    (devices : HashMap Device) (id : Str) (new : Device)
    → (v : Device) × (get (or_insert devices id new) id ≡ some v)
unfolding or_insert
or_insert-known devices id new = elim (Option-cases (get devices id)) [
  | inl absent ↦ (new, ground (arith, absent, str_eq_refl id, get-insert devices id id new))
  | inr (v, there) ↦ (v, ground (arith, there))
]

bindings-record_approval :
    (db : Db) (req : ApproveCodePairingRequest) (h : Str) (session : CodePairingSession)
    (used now : Time)
    → get (record_approval db req h session used now).bindings req.binding_id
      ≡ some (code_binding req session now)
unfolding record_approval
bindings-record_approval db req h session used now =
    rw get-insert (ground (arith, str_eq_refl req.binding_id))

devices-record_approval :
    (db : Db) (req : ApproveCodePairingRequest) (h : Str) (session : CodePairingSession)
    (used now : Time)
    → (v : Device) × (get (record_approval db req h session used now).devices req.daemon_device_id
        ≡ some v)
unfolding record_approval revoke_existing_active_bindings
devices-record_approval db req h session used now =
    or_insert-known db.devices req.daemon_device_id _

-- After the approval of a code succeeded, the rendezvous answers for the daemon, the client and
-- the id of the new binding.
pub rendezvous-approve_code :
    (c : Primitives) (k : Codec) (j : Serde) (s s' : AppState) (req : ApproveCodePairingRequest)
    (checked used now : Time) (v : Binding)
    → approve_code c k j s req checked used now ≡ ok (v, s')
    → (info : RendezvousInfo) × (rendezvous s' v.daemon_device_id v.client_device_id v.binding_id
        ≡ ok info)
rendezvous-approve_code c k j s s' req checked used now v e =
    let (h, session, p, b, d) = inner-approve_code c k j s req checked used now v s' e in
    let (x, known) = devices-record_approval s.inner req h session used now in
    let bound : IsBound s' v.daemon_device_id v.client_device_id v.binding_id = record {
      binding = code_binding req session now;
      found =
          ap (λ (db : Db). get db.bindings v.binding_id) d
          ∙ ap (get (record_approval s.inner req h session used now).bindings)
              (ap (λ (w : Binding). w.binding_id) b)
          ∙ bindings-record_approval s.inner req h session used now;
      of_daemon = ap (λ (w : Binding). w.daemon_device_id) (sym b);
      of_client = ap (λ (w : Binding). w.client_device_id) (sym b);
      active = refl;
    } in
    rendezvous_answers s' v.daemon_device_id v.client_device_id v.binding_id x bound (
      ap (λ (db : Db). get db.devices v.daemon_device_id) d
      ∙ ap (get (record_approval s.inner req h session used now).devices)
          (ap (λ (w : Binding). w.daemon_device_id) b)
      ∙ known)
