-- ===== src/Agent/State/File.antt =====
-- The file of `AgentState`, `load_or_create` and `save` of components/agent/src/state.rs. serde's
-- JSON is a parameter, and so is what the file system grants to a call.
pub mod Stable
use wisp_shell.Prelude.{
  ℕ, Bool, true, false, Option, none, some, List, [], ◌∷◌, ◌++◌, take, Str, text, Result, ok, err,
  ok_or, ◌>>=◌, if◌then◌else◌,
}
use wisp_shell.Protocol.Failure.{Failure, no_data_dir, io_failed, invalid_json}
use wisp_shell.Protocol.Crypto.{Primitives}
use wisp_shell.Protocol.Signing.{DeviceKeypair, device_id, private_key_b64, public_key_b64}
use wisp_shell.Agent.State.{AgentState}

pub record StateFile : Type 0 where
  pub bytes : List ℕ
  pub mode : ℕ

-- How a `std::fs::write` ends: the file could not be opened, the writing stopped after some bytes,
-- or all is written.
pub data Writing : Type 0 where
  refused : Writing
  stopped : ℕ → Writing
  whole : Writing

-- `data_dir` is what `ProjectDirs` finds, `readable` whether `std::fs::read` succeeds, `makes_dir`
-- and `permits` the same of `create_dir_all` and `set_permissions`. A new file gets `new_mode`.
pub record Access : Type 0 where
  pub data_dir : Option Str
  pub readable : Bool
  pub makes_dir : Bool
  pub writing : Writing
  pub permits : Bool
  pub new_mode : ℕ

-- `serde_json::to_vec_pretty` and `from_slice` at `AgentState`.
pub record StateJson : Type 0 where
  pub to_vec_pretty : AgentState → List ℕ
  pub from_slice : List ℕ → Option AgentState

-- `AgentState::path`
unfoldable pub path : Access → Result Failure Str
path a = do data_dir ← ok_or a.data_dir no_data_dir; ok (data_dir ++ text "/agent-state.json")

-- What is left of the old file's mode when its content is replaced.
abbrev pub written : Access → List ℕ → Option StateFile → StateFile
written a bytes none = record { bytes = bytes; mode = a.new_mode }
written a bytes (some file) = record file { bytes = bytes }

-- `0o600`
abbrev pub owner_only : ℕ
owner_only = 384

abbrev pub restricted : Access → StateFile → Result Failure (Unit {0}) × Option StateFile
restricted a file =
    if a.permits
    then (ok tt, some (record file { mode = owner_only }))
    else (err io_failed, some file)

abbrev pub write_then :
    Access → Writing → List ℕ → Option StateFile → Result Failure (Unit {0}) × Option StateFile
write_then a refused bytes disk = (err io_failed, disk)
write_then a (stopped n) bytes disk = (err io_failed, some (written a (take n bytes) disk))
write_then a whole bytes disk = restricted a (written a bytes disk)

module _ (j : StateJson) where
  -- The answer and the file after it.
  unfoldable pub save :
      Access → AgentState → Option StateFile → Result Failure (Unit {0}) × Option StateFile
  unfolding path
  save a state disk = elim (path a) [
    | err e ↦ (err e, disk)
    | ok _ ↦
        if a.makes_dir
        then write_then a a.writing (j.to_vec_pretty state) disk
        else (err io_failed, disk)
  ]

  -- `serde_json::from_slice(&std::fs::read(path)?)?`
  unfoldable pub read_state : Access → StateFile → Result Failure AgentState
  read_state a file =
      if a.readable then ok_or (j.from_slice file.bytes) invalid_json else err io_failed

  -- The state that was created, if it could be saved.
  abbrev pub saved :
      AgentState
      → Result Failure (Unit {0}) × Option StateFile
      → Result Failure AgentState × Option StateFile
  saved state (ok _, disk) = (ok state, disk)
  saved state (err e, disk) = (err e, disk)

  abbrev pub create :
      Access
      → Result Failure AgentState
      → Option StateFile
      → Result Failure AgentState × Option StateFile
  create a (err e) disk = (err e, disk)
  create a (ok state) disk = saved state (save a state disk)

  module _ (c : Primitives) where
    -- A new device's state. `keys` is what `DeviceKeypair::generate` gives.
    unfoldable pub created : DeviceKeypair → Result Failure AgentState
    unfolding device_id private_key_b64 public_key_b64
    created keys = do
      id ← device_id c keys
      ok (record {
        device_id = id;
        private_key = private_key_b64 c keys;
        public_key = public_key_b64 c keys;
        trusted_clients = [];
      })

    unfoldable pub load_or_create :
        Access → DeviceKeypair → Option StateFile → Result Failure AgentState × Option StateFile
    unfolding path read_state created save
    load_or_create a keys disk = elim (path a) [
      | err e ↦ (err e, disk)
      | ok _ ↦ elim disk [
        | none ↦ create a (created keys) none
        | some file ↦ (read_state a file, some file)
      ]
    ]
