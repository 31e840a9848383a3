-- ===== src/Cloud/Server/Keyed.antt =====
-- Every request keeps the maps keyed by the ids that their values carry.
use wisp_shell.Prelude.{
  ◌≡◌, refl, Bool, true, false, Bool-cases, inl, inr, some, List, [], ◌∷◌, Str, is_some,
  if◌then◌else◌,
}
use wisp_shell.Prelude.HashMap.{HashMap, get}
use wisp_shell.Prelude.HashMap.Keyed.{IsKeyed, insert-IsKeyed, modify-IsKeyed, map_values-IsKeyed}
use wisp_shell.Protocol.Crypto.{Primitives}
use wisp_shell.Cloud.Db.{Time, Db, Device, Binding, empty}
use wisp_shell.Cloud.Store.Rows.{Codec}
use wisp_shell.Cloud.Store.RoundTrip.{IsKeyedDb}
use wisp_shell.Cloud.App.{AppState}
use wisp_shell.Cloud.Pairing.{Serde, revoke_existing_active_bindings, is_superseded}
use wisp_shell.Cloud.CodePairing.{record_approval, or_insert}
use wisp_shell.Cloud.Server.Change.{
  Change, unchanged, device, pairing, code_pairing, presence, approval, code_approval, revocation,
  with_binding, step-Change,
}
use wisp_shell.Cloud.Server.{Request, step, run}

-- `revoke_existing_active_bindings` leaves the ids alone.
superseded_id :
    (daemon client id : Str) (now : Time) (b : Binding)
    → (if is_superseded daemon client id b
        then record b { revoked_at = some now }
        else b).binding_id
      ≡ b.binding_id
superseded_id daemon client id now b = by_test (is_superseded daemon client id b)
  where
    by_test :
        (t : Bool) → (if t then record b { revoked_at = some now } else b).binding_id ≡ b.binding_id
    by_test true = refl
    by_test false = refl

pub with_binding-IsKeyed :
    (d : Db) (now : Time) (b : Binding)
    → IsKeyed (λ (v : Binding). v.binding_id) d.bindings
    → IsKeyed (λ (v : Binding). v.binding_id) (with_binding d now b).bindings
unfolding revoke_existing_active_bindings
with_binding-IsKeyed d now b h = insert-IsKeyed _ _ b.binding_id b refl (
    map_values-IsKeyed _ d.bindings _
      (superseded_id b.daemon_device_id b.client_device_id b.binding_id now) h)

or_insert-IsKeyed :
    (m : HashMap Device) (v : Device)
    → IsKeyed (λ (v : Device). v.device_id) m
    → IsKeyed (λ (v : Device). v.device_id) (or_insert m v.device_id v)
unfolding or_insert
or_insert-IsKeyed m v h = elim (Bool-cases (is_some (get m v.device_id))) [
  | inl there ↦ rw there h
  | inr absent ↦ rw absent (insert-IsKeyed _ m v.device_id v refl h)
]

Change-IsKeyedDb : {r : Request} {d d' : Db} → Change r d d' → IsKeyedDb d → IsKeyedDb d'
Change-IsKeyedDb unchanged h = h
Change-IsKeyedDb (device v) h = record {
  devices = insert-IsKeyed _ _ v.device_id v refl h.devices;
  pairings = h.pairings;
  code_pairings = h.code_pairings;
  bindings = h.bindings;
  presence = h.presence;
}
Change-IsKeyedDb (pairing v) h = record {
  devices = h.devices;
  pairings = insert-IsKeyed _ _ v.pair_id v refl h.pairings;
  code_pairings = h.code_pairings;
  bindings = h.bindings;
  presence = h.presence;
}
Change-IsKeyedDb (code_pairing v new) h = record {
  devices = h.devices;
  pairings = h.pairings;
  code_pairings = insert-IsKeyed _ _ v.code_hash v refl h.code_pairings;
  bindings = h.bindings;
  presence = h.presence;
}
Change-IsKeyedDb (presence v) h = record {
  devices = h.devices;
  pairings = h.pairings;
  code_pairings = h.code_pairings;
  bindings = h.bindings;
  presence = insert-IsKeyed _ _ v.device_id v refl h.presence;
}
Change-IsKeyedDb {d = d} (approval pair_id now b) h =
    unfold revoke_existing_active_bindings in
    record {
      devices = h.devices;
      pairings = modify-IsKeyed _ d.pairings pair_id _ (λ v. refl) h.pairings;
      code_pairings = h.code_pairings;
      bindings = with_binding-IsKeyed d now b h.bindings;
      presence = h.presence;
    }
Change-IsKeyedDb {d = d} (code_approval req code_hash session used now) h =
    unfold record_approval in
    record {
      devices = or_insert-IsKeyed d.devices _ h.devices;
      pairings = h.pairings;
      code_pairings = modify-IsKeyed _ d.code_pairings code_hash _ (λ v. refl) h.code_pairings;
      bindings = with_binding-IsKeyed d now _ h.bindings;
      presence = h.presence;
    }
Change-IsKeyedDb {d = d} (revocation binding_id now) h = record {
  devices = h.devices;
  pairings = h.pairings;
  code_pairings = h.code_pairings;
  bindings = modify-IsKeyed _ d.bindings binding_id _ (λ v. refl) h.bindings;
  presence = h.presence;
}

pub empty-IsKeyedDb : IsKeyedDb empty
empty-IsKeyedDb = record {
  devices = tt;
  pairings = tt;
  code_pairings = tt;
  bindings = tt;
  presence = tt;
}

module _ (c : Primitives) (k : Codec) (j : Serde) where
  pub step-IsKeyedDb :
      (s : AppState) (r : Request) → IsKeyedDb s.inner → IsKeyedDb (step c k j s r).inner
  step-IsKeyedDb s r h = Change-IsKeyedDb (step-Change c k j s r) h

  -- If each map holds its values under the ids that they carry, it does so after any requests.
  pub run-IsKeyedDb :
      (s : AppState) (rs : List Request) → IsKeyedDb s.inner → IsKeyedDb (run c k j s rs).inner
  unfolding run
  run-IsKeyedDb s [] h = h
  run-IsKeyedDb s (r ∷ rs) h = run-IsKeyedDb (step c k j s r) rs (step-IsKeyedDb s r h)
