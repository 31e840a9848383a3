-- ===== src/Agent/Session.antt =====
-- The sessions of components/agent/src/session.rs. A session is shared by the clients attached to
-- it: the map under `inner` is the store, and a change of a session is a change of its entry. The
-- pseudo-terminal is portable_pty's, a parameter; `output_rx` and `tx`, the channel that passes the
-- output on, are tokio's and left out: Exchange has how it passes to a client that attaches, and
-- Agent.Serve.Output what is done with the output.
pub mod Ownership
pub mod Entries
pub mod Invariant
pub mod Reachable
pub mod Isolation
pub mod Exchange
use wisp_shell.Prelude.{
  ℕ, Option, none, some, List, [], ◌∷◌, ◌++◌, map, Str, str_eq, any, filter, not, Result, ok, err,
  ok_or, ensure, ◌>>=◌, ◌>>◌, if◌then◌else◌, Bool, false,
}
use wisp_shell.Prelude.HashMap.{HashMap, get, insert, modify}
use wisp_shell.Protocol.Failure.{Failure, session_not_found, not_input_owner, pty_failed}
use wisp_shell.Agent.Scrollback.{replay_scrollback, append_scrollback}

-- `native_pty_system`, `spawn_command`, the writer's `write_all` and the master's `resize`.
pub record Pty (Handle : Type 0) : Type 0 where
  pub openpty : (shell : Str) (cols rows : ℕ) → Option Handle
  pub write_all : Handle → List ℕ → Option Handle
  pub set_size : Handle → (cols rows : ℕ) → Option Handle

pub record SessionRuntime (Handle : Type 0) : Type 0 where
  pub id : Str
  pub name : Str
  pub created_at : ℕ
  pub last_active_at : ℕ
  pub cols : ℕ
  pub rows : ℕ
  pub scrollback : List (List ℕ)
  pub attached_clients : List Str
  pub input_owner : Option Str
  pub pty : Handle

pub record SessionManager (Handle : Type 0) : Type 0 where
  pub inner : HashMap (SessionRuntime Handle)
  pub shell : Str
  pub scrollback_bytes : ℕ
  pub scrollback_replay_bytes : ℕ

pub record SessionAttachResult : Type 0 where
  pub session_id : Str
  pub session_name : Str
  pub cols : ℕ
  pub rows : ℕ
  pub scrollback_b64 : List Str

-- `HashSet::insert` and `HashSet::remove`
unfoldable pub set_insert : List Str → Str → List Str
unfolding any
set_insert set x = if any (str_eq x) set then set else x ∷ set

unfoldable pub set_remove : List Str → Str → List Str
unfolding filter
set_remove set x = filter (λ y. not (str_eq x y)) set

-- `owner.as_deref() == Some(client)`
abbrev pub is_owner : Option Str → Str → Bool
is_owner none client = false
is_owner (some owner) client = str_eq owner client

module _ {Handle : Type 0} where
  -- `SessionManager::new`
  abbrev pub new : Str → ℕ → ℕ → SessionManager Handle
  new shell scrollback_bytes scrollback_replay_bytes = record {
    inner = [];
    shell = shell;
    scrollback_bytes = scrollback_bytes;
    scrollback_replay_bytes = scrollback_replay_bytes;
  }

  unfoldable pub find_id :
      HashMap (SessionRuntime Handle) → Str → Option (Str × SessionRuntime Handle)
  find_id [] session_id = none
  find_id ((name, session) ∷ inner) session_id =
      if str_eq session.id session_id then some (name, session) else find_id inner session_id

  -- The session with this id and the name that it stands under.
  unfoldable pub by_id : SessionManager Handle → Str → Result Failure (Str × SessionRuntime Handle)
  unfolding find_id
  by_id m session_id = ok_or (find_id m.inner session_id) session_not_found

  -- `spawn_session` and `new_runtime`.
  unfoldable pub spawn_session :
      Pty Handle
      → (name shell : Str) → (cols rows : ℕ) → (uuid : Str) → (now : ℕ)
      → Result Failure (SessionRuntime Handle)
  spawn_session p name shell cols rows uuid now = do
    pty ← ok_or (p.openpty shell cols rows) pty_failed
    ok (record {
      id = uuid;
      name = name;
      created_at = now;
      last_active_at = now;
      cols = cols;
      rows = rows;
      scrollback = [];
      attached_clients = [];
      input_owner = none;
      pty = pty;
    })

  -- The session under the name, or a new one.
  unfoldable pub get_or_create :
      Pty Handle
      → SessionManager Handle
      → Str
      → (cols rows : ℕ) → Str
      → ℕ
      → Result Failure (SessionRuntime Handle)
  unfolding spawn_session
  get_or_create p m session_name cols rows uuid now = elim (get m.inner session_name) [
    | some session ↦ ok session
    | none ↦ spawn_session p session_name m.shell cols rows uuid now
  ]

  abbrev pub attached_session :
      SessionRuntime Handle → Str → (cols rows : ℕ) → ℕ → SessionRuntime Handle
  attached_session session client_device_id cols rows now = record session {
    cols = cols;
    rows = rows;
    last_active_at = now;
    attached_clients = set_insert session.attached_clients client_device_id;
    input_owner = some client_device_id;
  }

  -- `standard` is `general_purpose::STANDARD.encode`, `uuid` what `Uuid::new_v4()` gives.
  unfoldable pub attach_or_create :
      (List ℕ → Str)
      → Pty Handle
      → SessionManager Handle
      → Str
      → Str
      → (cols rows : ℕ) → Str
      → ℕ
      → Result Failure (SessionAttachResult × SessionManager Handle)
  unfolding get_or_create set_insert replay_scrollback
  attach_or_create standard p m client_device_id session_name cols rows uuid now = do
    runtime ← get_or_create p m session_name cols rows uuid now
    let session = attached_session runtime client_device_id cols rows now
    ok (
      record {
        session_id = runtime.id;
        session_name = runtime.name;
        cols = cols;
        rows = rows;
        scrollback_b64 =
            map standard (replay_scrollback runtime.scrollback m.scrollback_replay_bytes);
      },
      record m { inner = insert m.inner session_name session },
    )

  unfoldable pub input :
      Pty Handle
      → SessionManager Handle
      → Str
      → Str
      → List ℕ
      → Result Failure (SessionManager Handle)
  unfolding by_id
  input p m client_device_id session_id bytes = do
    (name, session) ← by_id m session_id
    ensure (is_owner session.input_owner client_device_id) not_input_owner
    pty ← ok_or (p.write_all session.pty bytes) pty_failed
    let write = λ (s : SessionRuntime Handle). record s { pty = pty }
    ok (record m { inner = modify m.inner name write })

  -- The sizes are stored before the terminal is asked, whose refusal leaves them: the state goes
  -- on beside the answer.
  unfoldable pub resize :
      Pty Handle
      → SessionManager Handle
      → Str
      → (cols rows : ℕ) → Result Failure (Unit {0}) × SessionManager Handle
  unfolding by_id
  resize p m session_id cols rows = elim (by_id m session_id) [
    | err e ↦ (err e, m)
    | ok (name, session) ↦ elim (p.set_size session.pty cols rows) [
      | none ↦ (
        err pty_failed,
        record m {
          inner =
              modify m.inner name
                (λ (s : SessionRuntime Handle). record s { cols = cols; rows = rows });
        },
      )
      | some pty ↦ (
        ok tt,
        record m {
          inner =
              modify m.inner name
                (λ (s : SessionRuntime Handle). record s { cols = cols; rows = rows; pty = pty });
        },
      )
    ]
  ]

  unfoldable pub detach : SessionManager Handle → Str → Str → Result Failure (SessionManager Handle)
  unfolding by_id set_remove
  detach m client_device_id session_id = do
    (name, session) ← by_id m session_id
    let leave = λ (s : SessionRuntime Handle). record s {
      attached_clients = set_remove s.attached_clients client_device_id;
    }
    ok (record m { inner = modify m.inner name leave })

  -- The reader thread of `spawn_session` on an output of the shell.
  unfoldable pub on_output : SessionManager Handle → Str → List ℕ → SessionManager Handle
  unfolding append_scrollback
  on_output m name bytes = record m {
    inner = modify m.inner name (λ (s : SessionRuntime Handle). record s {
      scrollback = append_scrollback s.scrollback m.scrollback_bytes bytes;
    });
  }
