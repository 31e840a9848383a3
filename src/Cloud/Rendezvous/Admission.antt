-- ===== src/Cloud/Rendezvous/Admission.antt =====
-- Who `rendezvous` answers (components/cloud/src/rendezvous.rs).
use wisp_shell.Prelude.{
  Result-cases, inl, inr, ◌≡◌, refl, Option, none, some, Str, str_eq_iff, ok, arith,
}
use wisp_shell.Prelude.HashMap.{get}
use wisp_shell.Cloud.Db.{Binding, Device}
use wisp_shell.Cloud.App.{AppState}
use wisp_shell.Cloud.Rendezvous.{RendezvousInfo, rendezvous}

-- The binding with this id joins the two devices and is not revoked.
pub record IsBound (s : AppState) (daemon client id : Str) : Type 0 where
  pub binding : Binding
  pub found : get s.inner.bindings id ≡ some binding
  pub of_daemon : binding.daemon_device_id ≡ daemon
  pub of_client : binding.client_device_id ≡ client
  pub active : binding.revoked_at ≡ none

-- The rendezvous answers only under an unrevoked binding with this id of this daemon and this
-- client, and with the public key that the daemon's device is registered with.
pub rendezvous_bound :
    (s : AppState) (daemon client id : Str) (info : RendezvousInfo)
    → rendezvous s daemon client id ≡ ok info
    → IsBound s daemon client id
      × (v : Device) × (get s.inner.devices daemon ≡ some v)
      × (info.daemon_public_key ≡ v.public_key)
unfolding rendezvous
rendezvous_bound s daemon client id info e =
    by_found (get s.inner.bindings id) (get s.inner.devices daemon) refl refl
  where
    by_found :
        (b : Option Binding) (o : Option Device)
        → get s.inner.bindings id ≡ b
        → get s.inner.devices daemon ≡ o
        → IsBound s daemon client id
          × (v : Device) × (get s.inner.devices daemon ≡ some v)
          × (info.daemon_public_key ≡ v.public_key)
    by_found none none p q = absurd (ground (arith, p, q, e))
    by_found (some b) none p q = absurd (ground (arith, p, q, e))
    by_found none (some v) p q = absurd (ground (arith, p, q, e))
    by_found (some b) (some v) p q = (
      record {
        binding = b;
        found = p;
        of_daemon = ground (arith, p, q, e, str_eq_iff b.daemon_device_id daemon);
        of_client = ground (arith, p, q, e, str_eq_iff b.client_device_id client);
        active = ground (arith, p, q, e);
      },
      v,
      q,
      ground (arith, p, q, e),
    )

-- The rendezvous answers for a registered daemon, a client and an id under which an unrevoked
-- binding of the two stands.
pub rendezvous_answers :
    (s : AppState) (daemon client id : Str) (v : Device)
    → IsBound s daemon client id
    → get s.inner.devices daemon ≡ some v
    → (info : RendezvousInfo) × (rendezvous s daemon client id ≡ ok info)
unfolding rendezvous
rendezvous_answers s daemon client id v b q = elim (Result-cases (rendezvous s daemon client id)) [
  | inl answered ↦ answered
  | inr (x, e) ↦ absurd (
      ground (
        arith,
        e,
        b.found,
        b.of_daemon,
        b.of_client,
        b.active,
        q,
        str_eq_iff b.binding.daemon_device_id daemon,
        str_eq_iff b.binding.client_device_id client,
      ))
]
