-- ===== src/Cloud/Server/Concurrent.antt =====
-- The handlers of components/cloud/src beside each other. A handler changes the data under the lock,
-- lets it go, and saves the data under the lock again, `persist_or_log`: other handlers may come in
-- between, whose changes its save then writes too. A schedule is the order of these steps.
pub mod Linear
use wisp_shell.Prelude.{
  ℕ, zero, suc, ◌+◌, Bool, true, false, none, List, [], ◌∷◌, Result, ok, err, if◌then◌else◌,
}
use wisp_shell.Protocol.Crypto.{Primitives}
use wisp_shell.Cloud.Store.Rows.{Codec}
use wisp_shell.Cloud.App.{AppState, persist_or_log}
use wisp_shell.Cloud.Devices.{register}
use wisp_shell.Cloud.Pairing.{Serde}
use wisp_shell.Cloud.CodePairing.{start_code, approve_code}
use wisp_shell.Cloud.Bindings.{revoke}
use wisp_shell.Cloud.Server.{
  Request, register_device, pairing_start, pairing_claim, pairing_approve, code_start, code_approve,
  presence_update, binding_revoke, step,
}

-- The state without its file: a handler on it changes the data and saves nothing.
abbrev pub unsaved_state : AppState → AppState
unsaved_state s = record s { store = none }

-- `unsaved` handlers have changed the data and not yet saved it.
pub record Serving : Type 0 where
  pub app : AppState
  pub unsaved : ℕ

pub data Move : Type 0 where
  change : Request → Move
  save_one : Move

abbrev pub requests_of : List Move → List Request
requests_of [] = []
requests_of (change r ∷ moves) = r ∷ requests_of moves
requests_of (save_one ∷ moves) = requests_of moves

abbrev pub succeeds : {E A : Type 0} → Result E A → Bool
succeeds (ok a) = true
succeeds (err e) = false

module _ (c : Primitives) (k : Codec) (j : Serde) where
  -- Whether the handler comes to its save: a rejection and a claim save nothing.
  unfoldable pub comes_to_save : AppState → Request → Bool
  comes_to_save s (register_device req created seen) = succeeds (register k s req created seen)
  comes_to_save s (pairing_start req now) = true
  comes_to_save s (pairing_claim req now) = false
  comes_to_save s (pairing_approve req now) = true
  comes_to_save s (code_start req uuid checked now) = succeeds (start_code k s req uuid checked now)
  comes_to_save s (code_approve req checked used now) =
      succeeds (approve_code c k j s req checked used now)
  comes_to_save s (presence_update req now) = true
  comes_to_save s (binding_revoke binding_id now) = succeeds (revoke k s binding_id now)

  -- The part of a handler under its first lock.
  abbrev pub changed : Serving → Request → Serving
  changed s r =
      let before = unsaved_state s.app in
      record {
        app = record (step c k j before r) { store = s.app.store };
        unsaved = if comes_to_save before r then s.unsaved + 1 else s.unsaved;
      }

  -- The save of a handler that has one ahead.
  abbrev pub saved : Serving → ℕ → Serving
  saved s zero = s
  saved s (suc n) = record { app = persist_or_log k s.app; unsaved = n }

  unfoldable pub serve : Serving → List Move → Serving
  unfolding step comes_to_save
  serve s [] = s
  serve s (change r ∷ moves) = serve (changed s r) moves
  serve s (save_one ∷ moves) = serve (saved s s.unsaved) moves
