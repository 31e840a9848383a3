-- ===== src/Cloud/Server/OneActive.antt =====
-- At most one binding of a daemon and a client is active, whatever the requests.
pub mod Replacement
use mathlib.Core.Option
use wisp_shell.Prelude.{
  ◌≡◌, refl, sym, ap, ◌∙◌, ◌⊎◌, inl, inr, Bool, true, false, Bool-cases, Option-cases, Option, none,
  some, List, [], ◌∷◌, Str, str_eq, str_eq_iff, if◌then◌else◌, arith,
}
use wisp_shell.Prelude.HashMap.{
  HashMap, get, insert, modify, map_values, get-insert, get-modify, get-map_values,
}
use wisp_shell.Prelude.HashMap.Keyed.{IsKeyed, get-IsKeyed}
use wisp_shell.Protocol.Crypto.{Primitives}
use wisp_shell.Cloud.Db.{Time, Db, Binding}
use wisp_shell.Cloud.Store.Rows.{Codec}
use wisp_shell.Cloud.Store.RoundTrip.{IsKeyedDb}
use wisp_shell.Cloud.App.{AppState}
use wisp_shell.Cloud.Pairing.{Serde, revoke_existing_active_bindings, is_superseded}
use wisp_shell.Cloud.CodePairing.{record_approval}
use wisp_shell.Cloud.Server.Change.{
  Change, unchanged, device, pairing, code_pairing, presence, approval, code_approval, revocation,
  step-Change,
}
use wisp_shell.Cloud.Server.Keyed.{step-IsKeyedDb}
use wisp_shell.Cloud.Server.{Request, step, run}
pub use wisp_shell.Cloud.Server.OneActive.Replacement.{IsActive, IsOneActive}
use wisp_shell.Cloud.Server.OneActive.Replacement.{
  bindings_key, superseded, replaced, replaced-IsOneActive,
}

module _ (m : HashMap Binding) (binding_id : Str) (now : Time) where
  abbrev marked : HashMap Binding
  marked = modify m binding_id (λ (b : Binding). record b { revoked_at = some now })

  -- What is active after a revocation was active before.
  marked-IsActive :
      (daemon client i : Str) → IsActive marked daemon client i → IsActive m daemon client i
  marked-IsActive daemon client i a =
      let g = get-modify m binding_id i (λ (b : Binding). record b { revoked_at = some now }) in
      let p : get m i ≡ some a.binding = by_value (get m i) refl g in
      record {
        binding = a.binding;
        found = p;
        active = a.active;
        of_daemon = a.of_daemon;
        of_client = a.of_client;
      }
    where
      by_value :
          (o : Option Binding)
          → get m i ≡ o
          → get marked i ≡ (
              if str_eq binding_id i
              then Option.map (λ (b : Binding). record b { revoked_at = some now }) (get m i)
              else get m i)
          → get m i ≡ some a.binding
      by_value none e g = absurd (ground (arith, e, g, a.found))
      by_value (some b) e g = ground (arith, e, g, a.found, a.active)

  marked-IsOneActive : IsOneActive m → IsOneActive marked
  marked-IsOneActive one daemon client i j a b =
      one daemon client i j (marked-IsActive daemon client i a) (marked-IsActive daemon client j b)

Change-IsOneActive :
    {r : Request} {d e : Db}
    → Change r d e
    → IsKeyed bindings_key d.bindings
    → IsOneActive d.bindings
    → IsOneActive e.bindings
Change-IsOneActive unchanged keyed one = one
Change-IsOneActive (device v) keyed one = one
Change-IsOneActive (pairing v) keyed one = one
Change-IsOneActive (code_pairing v new) keyed one = one
Change-IsOneActive (presence v) keyed one = one
Change-IsOneActive {d = d} (approval pair_id now b) keyed one =
    unfold revoke_existing_active_bindings replaced superseded in
    replaced-IsOneActive d.bindings now b keyed one
Change-IsOneActive {d = d} (code_approval req code_hash session used now) keyed one =
    unfold record_approval revoke_existing_active_bindings replaced superseded in
    replaced-IsOneActive d.bindings now _ keyed one
Change-IsOneActive {d = d} (revocation binding_id now) keyed one =
    marked-IsOneActive d.bindings binding_id now one

module _ (c : Primitives) (k : Codec) (j : Serde) where
  -- If no daemon and client have two active bindings, with each map holding its values under the
  -- ids that they carry, then no daemon and client have two after any requests.
  pub run-IsOneActive :
      (s : AppState) (rs : List Request)
      → IsKeyedDb s.inner
      → IsOneActive s.inner.bindings
      → IsOneActive (run c k j s rs).inner.bindings
  unfolding run
  run-IsOneActive s [] h one = one
  run-IsOneActive s (r ∷ rs) h one =
      run-IsOneActive (step c k j s r) rs (step-IsKeyedDb c k j s r h)
        (Change-IsOneActive (step-Change c k j s r) h.bindings one)
