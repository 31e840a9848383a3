-- ===== src/Cloud/App.antt =====
-- `AppState` of components/cloud/src/db.rs. `events` has the device ids with a broadcast channel and
-- `sent` what was sent, in order: the channels themselves are tokio's. `store` is the content of
-- the SQLite file, if there is one.
use wisp_shell.Prelude.{
  Option, none, some, List, [], ◌∷◌, ◌++◌, Str, str_eq, any, Result, ok, err, if◌then◌else◌, ◌>>=◌,
}
use wisp_shell.Protocol.Failure.{Failure}
use wisp_shell.Cloud.Db.{Db, AgentEvent}
use wisp_shell.Cloud.Store.{Codec, Tables, save, load}

pub record AppState : Type 0 where
  pub inner : Db
  pub events : List Str
  pub sent : List (Str × AgentEvent)
  pub store : Option Tables

-- `event_sender(device_id)`: the channel is made on first use.
unfoldable pub event_sender : AppState → Str → AppState
unfolding any
event_sender s device_id = record s {
  events = if any (str_eq device_id) s.events then s.events else device_id ∷ s.events;
}

unfoldable pub send : AppState → Str → AgentEvent → AppState
send s device_id event = record s { sent = s.sent ++ (device_id, event) ∷ [] }

-- A failed save leaves the file as it was, for the transaction is dropped.
abbrev written : Tables → Result Failure Tables → Tables
written old (ok tables) = tables
written old (err e) = old

module _ (k : Codec) where
  -- `AppState::persistent` on a file with these tables.
  unfoldable pub persistent : Tables → Result Failure AppState
  persistent tables = do
    db ← load k tables
    ok (record { inner = db; events = []; sent = []; store = some tables })

  unfoldable pub persist_or_log : AppState → AppState
  persist_or_log s = elim s.store [
    | none ↦ s
    | some old ↦ record s { store = some (written old (save k s.inner)) }
  ]
