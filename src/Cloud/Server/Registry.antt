-- ===== src/Cloud/Server/Registry.antt =====
-- What the cloud promises of its bindings, without how it keeps them: which daemon and client each
-- id binds now. The handlers of components/cloud/src implement it.
use mathlib.Core.Option
use wisp_shell.Prelude.{
  ◌≡◌, refl, ◌⊎◌, inl, inr, Bool, true, false, Bool-cases, Option-cases, Option, none, some, Str,
  str_eq, str_eq_iff, is_some, if◌then◌else◌, arith, ◌&&◌,
}
use wisp_shell.Prelude.HashMap.{HashMap, get, modify, get-insert, get-modify, get-map_values}
use wisp_shell.Prelude.HashMap.Keyed.{IsKeyed, get-IsKeyed}
use wisp_shell.Cloud.Db.{Time, Db, Binding}
use wisp_shell.Cloud.Pairing.{is_superseded, revoke_existing_active_bindings}
use wisp_shell.Cloud.Server.OneActive.Replacement.{superseded}
use wisp_shell.Cloud.Server.Change.{with_binding}

-- The daemon and the client that an id binds.
abbrev pub Registry : Type 0
Registry = Str → Option (Str × Str)

abbrev pub nobody : Registry
nobody id = none

abbrev pub same_pair : Str → Str → Option (Str × Str) → Bool
same_pair daemon client none = false
same_pair daemon client (some (d, c)) = str_eq d daemon && str_eq c client

-- The id binds the two from now on, and no other id does.
abbrev pub bind : Str → Str → Str → Registry → Registry
bind daemon client id r i =
    if str_eq id i
    then some (daemon, client)
    else if same_pair daemon client (r i)
    then none
    else r i

abbrev pub unbind : Str → Registry → Registry
unbind id r i = if str_eq id i then none else r i

-- The registry that the data stands for.
abbrev active_pair : Option Binding → Option (Str × Str)
active_pair none = none
active_pair (some b) =
    if is_some b.revoked_at then none else some (b.daemon_device_id, b.client_device_id)

abbrev pub registry : HashMap Binding → Registry
registry m id = active_pair (get m id)

-- The loop leaves the binding with the new id to be overwritten, and else unbinds the pair.
active_pair-superseded :
    (daemon client id : Str) (now : Time) (b : Binding)
    → str_eq id b.binding_id ≡ false
    → active_pair (some (superseded daemon client id now b))
      ≡ (if same_pair daemon client (active_pair (some b)) then none else active_pair (some b))
unfolding superseded is_superseded
active_pair-superseded daemon client id now b e =
    ground (arith, e, str_eq_iff b.binding_id id, str_eq_iff id b.binding_id)

registry-revised :
    (m : HashMap Binding) (now : Time) (b : Binding) (i : Str)
    → b.revoked_at ≡ none
    → IsKeyed (λ (x : Binding). x.binding_id) m
    → (str_eq b.binding_id i ≡ true) ⊎ (str_eq b.binding_id i ≡ false)
    → (get m i ≡ none) ⊎ ((x : Binding) × (get m i ≡ some x))
    → active_pair (
        if str_eq b.binding_id i
        then some b
        else Option.map
            (superseded b.daemon_device_id b.client_device_id b.binding_id now)
            (get m i))
      ≡ bind b.daemon_device_id b.client_device_id b.binding_id (registry m) i
registry-revised m now b i fresh keyed (inl e) o = rw (e, fresh) refl
registry-revised m now b i fresh keyed (inr e) (inl p) = rw (e, p) refl
registry-revised m now b i fresh keyed (inr e) (inr (x, p)) =
    let w = get-IsKeyed (λ (x : Binding). x.binding_id) m i {v = x} keyed p in
    let other : str_eq b.binding_id x.binding_id ≡ false = rw (w) e in
    rw (e, p)
      (active_pair-superseded b.daemon_device_id b.client_device_id b.binding_id now x other)

pub registry-with_binding :
    (d : Db) (now : Time) (b : Binding) (i : Str)
    → IsKeyed (λ (x : Binding). x.binding_id) d.bindings
    → b.revoked_at ≡ none
    → registry (with_binding d now b).bindings i
      ≡ bind b.daemon_device_id b.client_device_id b.binding_id (registry d.bindings) i
unfolding revoke_existing_active_bindings
registry-with_binding d now b i keyed fresh =
    unfold superseded in
    rw (get-insert, get-map_values)
      (registry-revised d.bindings now b i fresh keyed (Bool-cases (str_eq b.binding_id i))
        (Option-cases (get d.bindings i)))

pub registry-revoked :
    (m : HashMap Binding) (now : Time) (id i : Str)
    → registry (modify m id (λ (b : Binding). record b { revoked_at = some now })) i
      ≡ unbind id (registry m) i
registry-revoked m now id i =
    rw (get-modify m id i (λ (b : Binding). record b { revoked_at = some now }))
      (by_value (get m i) (str_eq id i))
  where
    by_value :
        (o : Option Binding) (t : Bool)
        → active_pair
            (if t then Option.map (λ (b : Binding). record b { revoked_at = some now }) o else o)
          ≡ (if t then none else active_pair o)
    by_value none true = refl
    by_value none false = refl
    by_value (some b) true = refl
    by_value (some b) false = refl
