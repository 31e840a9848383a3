-- ===== src/Cloud/Store.antt =====
-- `SqliteStore::save` and `load` of components/cloud/src/db.rs. A table is its rows under their
-- primary keys; `Connection::open` and disk errors are not modelled.
pub mod Rows
pub mod RoundTrip
use wisp_shell.Prelude.{Option, none, some, List, [], ◌∷◌, Str, Result, ok, err, ok_or, ◌>>=◌}
use wisp_shell.Prelude.HashMap.{HashMap, get, insert, values}
use wisp_shell.Protocol.Failure.{Failure, unique_constraint}
use wisp_shell.Cloud.Db.{Db, Device, PairingSession, CodePairingSession, Binding, Presence}
unfoldable pub use Rows.*

pub record Tables : Type 0 where
  pub devices : HashMap DeviceRow
  pub pairings : HashMap PairingSessionRow
  pub code_pairings : HashMap CodePairingSessionRow
  pub bindings : HashMap BindingRow
  pub presence : HashMap PresenceRow

-- What `open` creates.
abbrev pub no_tables : Tables
no_tables = record { devices = []; pairings = []; code_pairings = []; bindings = []; presence = [] }

-- `INSERT`: a primary key that is there already is an error.
unfoldable pub insert_row : {R : Type 0} → HashMap R → Str → R → Result Failure (HashMap R)
insert_row table key row = elim (get table key) [
  | none ↦ ok (insert table key row)
  | some old ↦ err unique_constraint
]

-- The loop `for value in db.map.values() { tx.execute("INSERT ..")?; }`
unfoldable pub insert_rows :
    {V R : Type 0}
    → (V → Result Failure R)
    → (R → Str)
    → List V
    → HashMap R
    → Result Failure (HashMap R)
unfolding insert_row
insert_rows to_row key [] table = ok table
insert_rows to_row key (value ∷ rest) table = do
  row ← to_row value
  table' ← insert_row table (key row) row
  insert_rows to_row key rest table'

unfoldable pub collect_by :
    {R V : Type 0}
    → (R → Result Failure V)
    → (V → Str)
    → List R
    → HashMap V
    → Result Failure (HashMap V)
collect_by of_row key [] out = ok out
collect_by of_row key (row ∷ rows) out = do
  value ← of_row row
  collect_by of_row key rows (insert out (key value) value)

module _ (k : Codec) where
  -- The five `DELETE`s and the five loops. On an error the transaction is dropped.
  unfoldable pub save : Db → Result Failure Tables
  unfolding insert_rows values
  save db = do
    devices ← insert_rows (device_row k) (λ (row : DeviceRow). row.device_id) (values db.devices) []
    pairings ←
        insert_rows (pairing_row k) (λ (row : PairingSessionRow). row.pair_id) (values db.pairings)
          []
    code_pairings ←
        insert_rows (code_pairing_row k) (λ (row : CodePairingSessionRow). row.code_hash)
          (values db.code_pairings) []
    bindings ←
        insert_rows (binding_row k) (λ (row : BindingRow). row.binding_id) (values db.bindings) []
    presence ←
        insert_rows (presence_row k) (λ (row : PresenceRow). row.device_id) (values db.presence) []
    ok (record {
      devices = devices;
      pairings = pairings;
      code_pairings = code_pairings;
      bindings = bindings;
      presence = presence;
    })

  unfoldable pub load_devices : Tables → Result Failure (HashMap Device)
  unfolding collect_by values
  load_devices tables =
      collect_by (device_of_row k) (λ (value : Device). value.device_id) (values tables.devices) []

  unfoldable pub load_pairings : Tables → Result Failure (HashMap PairingSession)
  unfolding collect_by values
  load_pairings tables =
      collect_by (pairing_of_row k) (λ (value : PairingSession). value.pair_id)
        (values tables.pairings) []

  unfoldable pub load_code_pairings : Tables → Result Failure (HashMap CodePairingSession)
  unfolding collect_by values
  load_code_pairings tables =
      collect_by (code_pairing_of_row k) (λ (value : CodePairingSession). value.code_hash)
        (values tables.code_pairings) []

  unfoldable pub load_bindings : Tables → Result Failure (HashMap Binding)
  unfolding collect_by values
  load_bindings tables =
      collect_by (binding_of_row k) (λ (value : Binding). value.binding_id) (values tables.bindings)
        []

  unfoldable pub load_presence : Tables → Result Failure (HashMap Presence)
  unfolding collect_by values
  load_presence tables =
      collect_by (presence_of_row k) (λ (value : Presence). value.device_id)
        (values tables.presence) []

  unfoldable pub load : Tables → Result Failure Db
  unfolding load_devices load_pairings load_code_pairings load_bindings load_presence
  load tables = do
    devices ← load_devices tables
    pairings ← load_pairings tables
    code_pairings ← load_code_pairings tables
    bindings ← load_bindings tables
    presence ← load_presence tables
    ok (record {
      devices = devices;
      pairings = pairings;
      code_pairings = code_pairings;
      bindings = bindings;
      presence = presence;
    })
