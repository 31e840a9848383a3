-- ===== src/Cloud/Server/Listing.antt =====
-- The daemons that a client is shown (components/cloud/src/pairing.rs) are those that the registry
-- binds it to.
use wisp_shell.Prelude.{
  ◌≡◌, refl, Bool, [], ◌∷◌, map, filter, any, Str, str_eq, str_eq_iff, is_some, ◌&&◌, not, arith,
}
use wisp_shell.Prelude.HashMap.{HashMap, get, values}
use wisp_shell.Prelude.HashMap.Keyed.{IsKeyed}
use wisp_shell.Cloud.Db.{Db, Binding}
use wisp_shell.Cloud.App.{AppState}
use wisp_shell.Cloud.Bindings.{BoundDaemonResponse, bound_daemon, bindings_for_client}
use wisp_shell.Cloud.Server.Registry.{registry, same_pair}

-- An entry of the listing with this id and this daemon.
abbrev pub shows : Str → Str → BoundDaemonResponse → Bool
shows id daemon r = str_eq r.binding_id id && str_eq r.daemon_device_id daemon

abbrev active_for : Str → Binding → Bool
active_for client b = str_eq b.client_device_id client && not (is_some b.revoked_at)

any_listed :
    (db : Db) (m : HashMap Binding) (daemon client id : Str)
    → IsKeyed (λ (b : Binding). b.binding_id) m
    → any (shows id daemon) (map (bound_daemon db) (filter (active_for client) (values m)))
      ≡ same_pair daemon client (registry m id)
unfolding any filter values get
any_listed db [] daemon client id keyed = refl
any_listed db ((j, b) ∷ m) daemon client id keyed = ground (
  arith,
  keyed.0,
  keyed.1,
  str_eq_iff j id,
  str_eq_iff b.binding_id id,
  any_listed db m daemon client id keyed.2,
)

-- With each binding held under the id that it carries, the listing for a client shows a daemon
-- under an id exactly when the registry binds the two under it.
pub any-bindings_for_client :
    (s : AppState) (daemon client id : Str)
    → IsKeyed (λ (b : Binding). b.binding_id) s.inner.bindings
    → any (shows id daemon) (bindings_for_client s client)
      ≡ same_pair daemon client (registry s.inner.bindings id)
unfolding bindings_for_client any filter values
any-bindings_for_client s daemon client id keyed =
    any_listed s.inner s.inner.bindings daemon client id keyed
