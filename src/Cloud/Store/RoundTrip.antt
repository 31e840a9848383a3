-- ===== src/Cloud/Store/RoundTrip.antt =====
-- What `save` writes, `load` reads back, for the maps that the handlers keep.
use mathlib.Core.List.{append_assoc, append-nil}
use wisp_shell.Prelude.{◌≡◌, refl, ap, sym, ◌∙◌, Option, none, some, [], ◌∷◌, ◌++◌, Str, Result, ok}
use wisp_shell.Prelude.HashMap.{HashMap, get, values, map_values, get-map_values}
use wisp_shell.Prelude.HashMap.Keyed.{IsKeyed, get_front, own_key, insert_new}
use wisp_shell.Protocol.Failure.{Failure}
use wisp_shell.Cloud.Db.{
  Time, Json, Db, Device, PairingSession, CodePairingSession, Binding, Presence,
}
use wisp_shell.Cloud.Store.Rows.{
  Codec, IsLawful, encode_dt, decode_dt, encode_optional_dt, decode_optional_dt, encode_json,
  decode_json, DeviceRow, PairingSessionRow, CodePairingSessionRow, BindingRow, PresenceRow,
  device_row, device_of_row, pairing_row, pairing_of_row, code_pairing_row, code_pairing_of_row,
  binding_row, binding_of_row, presence_row, presence_of_row,
}
use wisp_shell.Cloud.Store.{Tables, insert_row, insert_rows, collect_by, save, load}

insert_row_absent :
    {R : Type 0} (table : HashMap R) (key : Str) (row : R)
    → get table key ≡ none
    → insert_row table key row ≡ ok (table ++ (key, row) ∷ [])
unfolding insert_row
insert_row_absent table key row e = rw (e, insert_row) (ap ok (insert_new table key row e))

-- A row of a value: what is written for it, under its key, and reads back as it.
abbrev Row :
    {V R : Type 0}
    → (V → Result Failure R)
    → (R → Result Failure V)
    → (V → Str)
    → (R → Str)
    → V
    → Type 0
Row {V} {R} to_row of_row key row_key v =
    (r : R) × (to_row v ≡ ok r) × (of_row r ≡ ok v) × (row_key r ≡ key v)

module _ {V R : Type 0} (to_row : V → Result Failure R) (of_row : R → Result Failure V)
    (key : V → Str) (row_key : R → Str) (row : (v : V) → Row to_row of_row key row_key v) where
  abbrev row_of : V → R
  row_of v = (row v).0

  map_values-append :
      (a : HashMap V) (j : Str) (v : V)
      → map_values row_of (a ++ (j, v) ∷ []) ≡ map_values row_of a ++ (j, row_of v) ∷ []
  unfolding map_values
  map_values-append [] j v = refl
  map_values-append ((i, w) ∷ a) j v = ap (◌∷◌ (i, row_of w)) (map_values-append a j v)

  get_row_none : (a : HashMap V) (j : Str) → get a j ≡ none → get (map_values row_of a) j ≡ none
  get_row_none a j e = rw (get-map_values a row_of j, e)

  insert_row_new :
      (acc m : HashMap V) (j : Str) (v : V)
      → IsKeyed key (acc ++ (j, v) ∷ m)
      → insert_row (map_values row_of acc) (row_key (row_of v)) (row_of v)
        ≡ ok (map_values row_of (acc ++ (j, v) ∷ []))
  insert_row_new acc m j v h =
      rw ((row v).3, own_key key acc m j v h)
        (insert_row_absent (map_values row_of acc) j (row_of v)
            (get_row_none acc j (get_front key acc m j v h))
          ∙ ap ok (sym (map_values-append acc j v)))

  insert_rows_lem :
      (m acc : HashMap V)
      → IsKeyed key (acc ++ m)
      → insert_rows to_row row_key (values m) (map_values row_of acc)
        ≡ ok (map_values row_of (acc ++ m))
  unfolding insert_rows values
  insert_rows_lem [] acc h = rw append-nil
  insert_rows_lem ((j, v) ∷ m) acc h =
      rw ((row v).1, insert_row_new acc m j v h)
        (insert_rows_lem m (acc ++ (j, v) ∷ []) (rw append_assoc h)
          ∙ ap (λ t. ok (map_values row_of t)) (append_assoc acc ((j, v) ∷ []) m))

  collect_by_lem :
      (m acc : HashMap V)
      → IsKeyed key (acc ++ m)
      → collect_by of_row key (values (map_values row_of m)) acc ≡ ok (acc ++ m)
  unfolding collect_by values map_values
  collect_by_lem [] acc h = rw append-nil
  collect_by_lem ((j, v) ∷ m) acc h =
      rw ((row v).2, own_key key acc m j v h, insert_new acc j v (get_front key acc m j v h))
        (collect_by_lem m (acc ++ (j, v) ∷ []) (rw append_assoc h)
          ∙ ap ok (append_assoc acc ((j, v) ∷ []) m))

-- Every value of the database carries its own key, and each key occurs once.
pub record IsKeyedDb (db : Db) : Type 0 where
  pub devices : IsKeyed (λ (v : Device). v.device_id) db.devices
  pub pairings : IsKeyed (λ (v : PairingSession). v.pair_id) db.pairings
  pub code_pairings : IsKeyed (λ (v : CodePairingSession). v.code_hash) db.code_pairings
  pub bindings : IsKeyed (λ (v : Binding). v.binding_id) db.bindings
  pub presence : IsKeyed (λ (v : Presence). v.device_id) db.presence

module _ {k : Codec} (lawful : IsLawful k) where
  time_round : (t : Time) → decode_dt k (encode_dt k t) ≡ ok t
  unfolding decode_dt encode_dt
  time_round t = rw (lawful.parse-to_rfc3339 t)

  optional_time_round : (o : Option Time) → decode_optional_dt k (encode_optional_dt k o) ≡ ok o
  unfolding decode_optional_dt encode_optional_dt
  optional_time_round none = refl
  optional_time_round (some t) = rw (lawful.parse-to_rfc3339 t)

  json_round :
      (o : Option Json) → (s : Option Str) × (encode_json k o ≡ ok s) × (decode_json k s ≡ ok o)
  unfolding encode_json decode_json
  json_round none = (none, refl, refl)
  json_round (some j) = let (s, written, read) = lawful.json_text j in (some s, rw written, rw read)

  device_round :
      (v : Device)
      → Row
          (device_row k)
          (device_of_row k)
          (λ (v : Device). v.device_id)
          (λ (r : DeviceRow). r.device_id)
          v
  unfolding device_row device_of_row
  device_round v = (
    record {
      device_id = v.device_id;
      kind = v.kind;
      display_name = v.display_name;
      public_key = v.public_key;
      created_at = encode_dt k v.created_at;
      last_seen_at = encode_optional_dt k v.last_seen_at;
    },
    refl,
    rw (time_round v.created_at, optional_time_round v.last_seen_at),
    refl,
  )

  pairing_round :
      (v : PairingSession)
      → Row
          (pairing_row k)
          (pairing_of_row k)
          (λ (v : PairingSession). v.pair_id)
          (λ (r : PairingSessionRow). r.pair_id)
          v
  unfolding pairing_row pairing_of_row
  pairing_round v = (
    record {
      pair_id = v.pair_id;
      daemon_device_id = v.daemon_device_id;
      daemon_public_key = v.daemon_public_key;
      expires_at = encode_dt k v.expires_at;
      used_at = encode_optional_dt k v.used_at;
      created_at = encode_dt k v.created_at;
    },
    refl,
    rw (time_round v.expires_at, optional_time_round v.used_at, time_round v.created_at),
    refl,
  )

  code_pairing_round :
      (v : CodePairingSession)
      → Row
          (code_pairing_row k)
          (code_pairing_of_row k)
          (λ (v : CodePairingSession). v.code_hash)
          (λ (r : CodePairingSessionRow). r.code_hash)
          v
  unfolding code_pairing_row code_pairing_of_row
  code_pairing_round v = (
    record {
      code_hash = v.code_hash;
      pair_id = v.pair_id;
      client_device_id = v.client_device_id;
      client_public_key = v.client_public_key;
      client_name = v.client_name;
      expires_at = encode_dt k v.expires_at;
      used_at = encode_optional_dt k v.used_at;
      created_at = encode_dt k v.created_at;
    },
    refl,
    rw (time_round v.expires_at, optional_time_round v.used_at, time_round v.created_at),
    refl,
  )

  binding_round :
      (v : Binding)
      → Row
          (binding_row k)
          (binding_of_row k)
          (λ (v : Binding). v.binding_id)
          (λ (r : BindingRow). r.binding_id)
          v
  unfolding binding_row binding_of_row
  binding_round v = (
    record {
      binding_id = v.binding_id;
      daemon_device_id = v.daemon_device_id;
      client_device_id = v.client_device_id;
      permissions_json = v.permissions_json;
      binding_cert_json = v.binding_cert_json;
      binding_signature = v.binding_signature;
      created_at = encode_dt k v.created_at;
      revoked_at = encode_optional_dt k v.revoked_at;
    },
    refl,
    rw (time_round v.created_at, optional_time_round v.revoked_at),
    refl,
  )

  presence_round :
      (v : Presence)
      → Row
          (presence_row k)
          (presence_of_row k)
          (λ (v : Presence). v.device_id)
          (λ (r : PresenceRow). r.device_id)
          v
  unfolding presence_row presence_of_row
  presence_round v =
      let (address, written, read) = json_round v.iroh_node_addr_json in
      (
        record {
          device_id = v.device_id;
          status = v.status;
          iroh_node_addr_json = address;
          agent_version = v.agent_version;
          updated_at = encode_dt k v.updated_at;
        },
        rw written,
        rw (read, time_round v.updated_at),
        refl,
      )

  pub load-save :
      (db : Db)
      → IsKeyedDb db
      → (tables : Tables) × (save k db ≡ ok tables) × (load k tables ≡ ok db)
  unfolding save load map_values
  load-save db h = (
    tables_of,
    rw (
      insert_rows_lem (device_row k) (device_of_row k) _ _ device_round db.devices [] h.devices,
      insert_rows_lem (pairing_row k) (pairing_of_row k) _ _ pairing_round db.pairings []
          h.pairings,
      insert_rows_lem (code_pairing_row k) (code_pairing_of_row k) _ _ code_pairing_round
          db.code_pairings [] h.code_pairings,
      insert_rows_lem (binding_row k) (binding_of_row k) _ _ binding_round db.bindings []
          h.bindings,
      insert_rows_lem (presence_row k) (presence_of_row k) _ _ presence_round db.presence []
          h.presence,
    ),
    rw (
      collect_by_lem (device_row k) (device_of_row k) _ _ device_round db.devices [] h.devices,
      collect_by_lem (pairing_row k) (pairing_of_row k) _ _ pairing_round db.pairings [] h.pairings,
      collect_by_lem (code_pairing_row k) (code_pairing_of_row k) _ _ code_pairing_round
          db.code_pairings [] h.code_pairings,
      collect_by_lem (binding_row k) (binding_of_row k) _ _ binding_round db.bindings [] h.bindings,
      collect_by_lem (presence_row k) (presence_of_row k) _ _ presence_round db.presence []
          h.presence,
    ),
  )
    where
      tables_of : Tables
      tables_of = record {
        devices = map_values (λ v. (device_round v).0) db.devices;
        pairings = map_values (λ v. (pairing_round v).0) db.pairings;
        code_pairings = map_values (λ v. (code_pairing_round v).0) db.code_pairings;
        bindings = map_values (λ v. (binding_round v).0) db.bindings;
        presence = map_values (λ v. (presence_round v).0) db.presence;
      }
