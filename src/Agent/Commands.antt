-- ===== src/Agent/Commands.antt =====
-- The commands that change the daemon's file while the daemon runs, each a process of its own:
-- `revoke` of components/agent/src/main.rs and `approve_pairing_code` of pairing.rs. Between its
-- `load_or_create` and its `save` a command holds a copy of the state, and `save` empties the file
-- before it writes: so do any number of commands, in any order of their steps. The file is there
-- from the start, can be opened, and the JSON is written by one call.
pub mod Knows
pub mod Forgotten
pub mod Races
use wisp_shell.Prelude.{
  ℕ, ◌≡◌, ◌≢◌, ◌==◌, Bool, Option, none, some, List, [], ◌∷◌, ◌++◌, map, length, drop, Str, text,
  Result, ok, err, if◌then◌else◌,
}
use wisp_shell.Protocol.Failure.{Failure}
use wisp_shell.Protocol.Crypto.{Primitives}
use wisp_shell.Protocol.Signing.{DeviceKeypair}
use wisp_shell.Agent.State.{TrustedClient, AgentState, trust_client}
use wisp_shell.Agent.State.File.{StateFile, Access, StateJson, save, load_or_create}
use wisp_shell.Agent.Pairing.{revoke}

-- `devices revoke` as one process alone runs it.
module _ (j : StateJson) (c : Primitives) where
  abbrev pub save_revoked :
      Access
      → Str
      → Result Failure AgentState × Option StateFile
      → Result Failure (Unit {0}) × Option StateFile
  save_revoked a client_id (err e, disk) = (err e, disk)
  save_revoked a client_id (ok state, disk) = save j a (revoke state client_id) disk

  unfoldable pub revoke_process :
      Access → DeviceKeypair → Str → Option StateFile → Result Failure (Unit {0}) × Option StateFile
  unfolding load_or_create save revoke
  revoke_process a keys client_id disk = save_revoked a client_id (load_or_create j c a keys disk)

-- The lines that `devices list` prints.
abbrev pub client_line : TrustedClient → Str
client_line client = client.client_device_id ++ (9 ∷ client.client_name)

abbrev pub client_lines : List TrustedClient → List Str
client_lines [] = text "No trusted Android clients." ∷ []
client_lines (client ∷ clients) = map client_line (client ∷ clients)

unfoldable pub devices_list : AgentState → List Str
devices_list state = client_lines state.trusted_clients

-- A command, `trust` being an approval that the cloud accepted for this client.
pub data FileCommand : Type 0 where
  forget : Str → FileCommand
  trust : TrustedClient → FileCommand

-- What it does to the copy that it holds.
unfoldable pub edit : FileCommand → AgentState → AgentState
unfolding revoke trust_client
edit (forget client_id) state = revoke state client_id
edit (trust client) state = trust_client state client

-- Where a command is.
pub data Phase : Type 0 where
  waiting : Phase
  holding writing : AgentState → Phase
  finished failed : Phase

pub record System : Type 0 where
  pub bytes : List ℕ
  pub phase : ℕ → Phase

abbrev pub update : (ℕ → Phase) → ℕ → Phase → ℕ → Phase
update phase i p k = if k == i then p else phase k

-- The bytes are written from the start of the file, over what stands there.
unfoldable pub overwrite : List ℕ → List ℕ → List ℕ
overwrite new old = new ++ drop (length new) old

abbrev pub move : System → ℕ → List ℕ → Phase → System
move s i bytes p = record { bytes = bytes; phase = update s.phase i p }

-- The file with a state, before any command.
abbrev pub resting : StateJson → AgentState → System
resting j state = record { bytes = j.to_vec_pretty state; phase = λ _. Phase.waiting }

pub data Step (j : StateJson) (commands : ℕ → FileCommand) (s : System) : System → Type 0 where
  load :
      (i : ℕ) (state : AgentState)
      → s.phase i ≡ Phase.waiting
      → j.from_slice s.bytes ≡ some state
      → Step j commands s (move s i s.bytes (Phase.holding (edit (commands i) state)))
  unreadable :
      (i : ℕ)
      → s.phase i ≡ Phase.waiting
      → j.from_slice s.bytes ≡ none
      → Step j commands s (move s i s.bytes Phase.failed)
  give_up :
      (i : ℕ) (state : AgentState)
      → s.phase i ≡ Phase.holding state
      → Step j commands s (move s i s.bytes Phase.failed)
  truncate :
      (i : ℕ) (state : AgentState)
      → s.phase i ≡ Phase.holding state
      → Step j commands s (move s i [] (Phase.writing state))
  write :
      (i : ℕ) (state : AgentState)
      → s.phase i ≡ Phase.writing state
      → Step j commands s (move s i (overwrite (j.to_vec_pretty state) s.bytes) Phase.finished)

pub data Reach (j : StateJson) (commands : ℕ → FileCommand) (s : System) : System → Type 0 where
  here : Reach j commands s s
  next : {t u : System} → Reach j commands s t → Step j commands t u → Reach j commands s u

-- No command empties the file while another one is writing.
abbrev pub StepIsOrderly :
    {j : StateJson} {commands : ℕ → FileCommand} {s t : System} → Step j commands s t → Type 0
StepIsOrderly {s} (truncate i state e) =
    (k : ℕ) (other : AgentState) → s.phase k ≢ Phase.writing other
StepIsOrderly _ = Unit {0}

abbrev pub IsOrderly :
    {j : StateJson} {commands : ℕ → FileCommand} {s t : System} → Reach j commands s t → Type 0
IsOrderly here = Unit {0}
IsOrderly (next r st) = IsOrderly r × StepIsOrderly st
