-- ===== src/Cloud/Server/OneActive/Replacement.antt =====
-- One approval: the new binding takes the place of the active ones of its pair.
use mathlib.Core.Option
use wisp_shell.Prelude.{
  ◌≡◌, refl, sym, ap, ◌∙◌, ◌⊎◌, inl, inr, Bool, true, false, Bool-cases, Option-cases, none, some,
  Str, str_eq, str_eq_iff, if◌then◌else◌, arith,
}
use wisp_shell.Prelude.HashMap.{HashMap, get, insert, map_values, get-insert, get-map_values}
use wisp_shell.Prelude.HashMap.Keyed.{IsKeyed, get-IsKeyed}
use wisp_shell.Cloud.Db.{Time, Binding}
use wisp_shell.Cloud.Pairing.{is_superseded}

-- The binding under `id` is active and joins this daemon and client.
pub record IsActive (m : HashMap Binding) (daemon client id : Str) : Type 0 where
  pub binding : Binding
  pub found : get m id ≡ some binding
  pub active : binding.revoked_at ≡ none
  pub of_daemon : binding.daemon_device_id ≡ daemon
  pub of_client : binding.client_device_id ≡ client

abbrev pub IsOneActive : HashMap Binding → Type 0
IsOneActive m =
    (daemon client i j : Str) → IsActive m daemon client i → IsActive m daemon client j → i ≡ j

abbrev pub bindings_key : Binding → Str
bindings_key b = b.binding_id

-- One value under the revocation loop.
unfoldable pub superseded : Str → Str → Str → Time → Binding → Binding
superseded daemon client id now b =
    if is_superseded daemon client id b then record b { revoked_at = some now } else b

kept :
    (daemon client id : Str) (now : Time) (b : Binding)
    → (superseded daemon client id now b).revoked_at ≡ none
    → is_superseded daemon client id b ≡ false
unfolding superseded
kept daemon client id now b alive = by_test (is_superseded daemon client id b) refl
  where
    by_test :
        (t : Bool) → is_superseded daemon client id b ≡ t → is_superseded daemon client id b ≡ false
    by_test true e = absurd (ground (arith, e))
    by_test false e = e

kept_same :
    (daemon client id : Str) (now : Time) (b : Binding)
    → (superseded daemon client id now b).revoked_at ≡ none
    → superseded daemon client id now b ≡ b
unfolding superseded
kept_same daemon client id now b alive = rw (kept daemon client id now b alive)

-- What stays active is not of the new binding's pair, unless it has the new binding's id.
kept_other :
    (daemon client id : Str) (b : Binding)
    → is_superseded daemon client id b ≡ false
    → b.revoked_at ≡ none
    → b.daemon_device_id ≡ daemon
    → b.client_device_id ≡ client
    → b.binding_id ≡ id
unfolding is_superseded
kept_other daemon client id b e alive d l = ground (
  arith,
  str_eq_iff b.binding_id id,
  str_eq_iff b.daemon_device_id daemon,
  str_eq_iff b.client_device_id client,
)

module _ (m : HashMap Binding) (now : Time) (new : Binding) where
  unfoldable pub replaced : HashMap Binding
  replaced =
      insert
        (map_values (superseded new.daemon_device_id new.client_device_id new.binding_id now) m)
        new.binding_id new

  abbrev revised : Binding → Binding
  revised = superseded new.daemon_device_id new.client_device_id new.binding_id now

  get-replaced :
      (i : Str)
      → get replaced i
        ≡ (if str_eq new.binding_id i then some new else Option.map revised (get m i))
  unfolding replaced
  get-replaced i = rw (get-insert, get-map_values)

  is_new :
      (daemon client i : Str)
      → str_eq new.binding_id i ≡ true
      → IsActive replaced daemon client i
      → (i ≡ new.binding_id) × (daemon ≡ new.daemon_device_id) × (client ≡ new.client_device_id)
  is_new daemon client i e a =
      let same : a.binding ≡ new = ground (arith, e, get-replaced i, a.found) in
      (
        ground (arith, e, str_eq_iff new.binding_id i),
        sym a.of_daemon ∙ ap (λ (b : Binding). b.daemon_device_id) same,
        sym a.of_client ∙ ap (λ (b : Binding). b.client_device_id) same,
      )

  is_old :
      (daemon client i : Str) (b : Binding)
      → IsKeyed bindings_key m
      → str_eq new.binding_id i ≡ false
      → get m i ≡ some b
      → IsActive replaced daemon client i
      → IsActive m daemon client i
        × (daemon ≡ new.daemon_device_id → client ≡ new.client_device_id → ⊥)
  is_old daemon client i b keyed e p a =
      let q : a.binding ≡ revised b = ground (arith, e, p, get-replaced i, a.found) in
      let alive : (revised b).revoked_at ≡ none = cc (q, a.active) in
      let same : a.binding ≡ b =
        q ∙ kept_same new.daemon_device_id new.client_device_id new.binding_id now b alive in
      let other = kept new.daemon_device_id new.client_device_id new.binding_id now b alive in
      let d : b.daemon_device_id ≡ daemon = cc (same, a.of_daemon) in
      let l : b.client_device_id ≡ client = cc (same, a.of_client) in
      let n : b.revoked_at ≡ none = cc (same, a.active) in
      (
        record { binding = b; found = p; active = n; of_daemon = d; of_client = l },
        λ e_d e_l.
            let o =
              kept_other new.daemon_device_id new.client_device_id new.binding_id b other n
                (d ∙ e_d) (l ∙ e_l) in
            let w = get-IsKeyed bindings_key m i {v = b} keyed p in
            ground (arith, e, o, w, str_eq_iff new.binding_id i),
      )

  -- An active binding is the new one, or an old one of another pair.
  replaced-IsActive :
      (daemon client i : Str)
      → IsKeyed bindings_key m
      → IsActive replaced daemon client i
      → ((i ≡ new.binding_id) × (daemon ≡ new.daemon_device_id) × (client ≡ new.client_device_id))
        ⊎ (IsActive m daemon client i
            × (daemon ≡ new.daemon_device_id → client ≡ new.client_device_id → ⊥))
  replaced-IsActive daemon client i keyed a =
      by_id (Bool-cases (str_eq new.binding_id i)) (Option-cases (get m i))
    where
      by_id :
          (str_eq new.binding_id i ≡ true) ⊎ (str_eq new.binding_id i ≡ false)
          → (get m i ≡ none) ⊎ ((b : Binding) × (get m i ≡ some b))
          → ((i ≡ new.binding_id)
              × (daemon ≡ new.daemon_device_id)
              × (client ≡ new.client_device_id))
            ⊎ (IsActive m daemon client i
                × (daemon ≡ new.daemon_device_id → client ≡ new.client_device_id → ⊥))
      by_id (inl e) o = inl (is_new daemon client i e a)
      by_id (inr e) (inl p) = absurd (ground (arith, e, p, get-replaced i, a.found))
      by_id (inr e) (inr (b, p)) = inr (is_old daemon client i b keyed e p a)

  pub replaced-IsOneActive : IsKeyed bindings_key m → IsOneActive m → IsOneActive replaced
  replaced-IsOneActive keyed one daemon client i j a b =
      by_cases (replaced-IsActive daemon client i keyed a)
        (replaced-IsActive daemon client j keyed b)
    where
      by_cases :
          ((i ≡ new.binding_id) × (daemon ≡ new.daemon_device_id) × (client ≡ new.client_device_id))
            ⊎ (IsActive m daemon client i
                × (daemon ≡ new.daemon_device_id → client ≡ new.client_device_id → ⊥))
          → ((j ≡ new.binding_id)
              × (daemon ≡ new.daemon_device_id)
              × (client ≡ new.client_device_id))
            ⊎ (IsActive m daemon client j
                × (daemon ≡ new.daemon_device_id → client ≡ new.client_device_id → ⊥))
          → i ≡ j
      by_cases (inl (p, d, l)) (inl (q, d', l')) = p ∙ sym q
      by_cases (inl (p, d, l)) (inr (q, other)) = absurd (other d l)
      by_cases (inr (q, other)) (inl (p, d, l)) = absurd (other d l)
      by_cases (inr (p, d)) (inr (q, d')) = one daemon client i j p q
