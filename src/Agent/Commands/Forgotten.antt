-- ===== src/Agent/Commands/Forgotten.antt =====
-- What the commands do to a client that is not in the daemon's file.
use wisp_shell.Prelude.{
  ℕ, drop-nil, ◌≡◌, Bool, true, false, some, List, [], length, append-nil, Str,
}
use wisp_shell.Agent.State.{AgentState}
use wisp_shell.Agent.State.File.{StateJson}
use wisp_shell.Agent.Commands.{Phase, System, overwrite}
use wisp_shell.Agent.Commands.Knows.{IsWithout}

-- What a command carries.
abbrev Carries : (AgentState → Type 0) → Phase → Type 0
Carries P (Phase.holding s) = P s
Carries P (Phase.writing s) = P s
Carries P _ = Unit {0}

abbrev is_writing : Phase → Bool
is_writing (Phase.writing s) = true
is_writing _ = false

pub overwrite-empty : (new old : List ℕ) → old ≡ [] → overwrite new old ≡ new
unfolding overwrite
overwrite-empty new old e = rw (e, drop-nil {A = ℕ} (length new), append-nil)

module _ (j : StateJson) (id : Str) (state : AgentState) where
  -- Neither the file nor any command has a state with the client, and one command writes at most.
  record IsForgotten (s : System) : Type 0 where
    pub content :
        (found : AgentState) → j.from_slice s.bytes ≡ some found → IsWithout id state found
    pub carried : (i : ℕ) → Carries (IsWithout id state) (s.phase i)
    pub alone : (i k : ℕ) → is_writing (s.phase i) ≡ true → is_writing (s.phase k) ≡ true → i ≡ k
    pub emptied : (i : ℕ) → is_writing (s.phase i) ≡ true → s.bytes ≡ []
