-- ===== src/Android/Bridge.antt =====
-- The table of the open terminals and the calls from Java, crates/wispshell-core/src/android_jni.rs.
-- A handle is an `i64` as its 64 bits; an error is thrown as an exception.
pub mod Handles
use wisp_shell.Prelude.{
  ℕ, ◌+◌, ◌%◌, ◌^◌, ◌<◌, ◌≤◌, ◌≡◌, ◌≢◌, refl, ◌==◌, Option, none, some, List, [], ◌∷◌, ◌++◌, Result,
  ok, err, ok_or, ◌>>=◌, ltb, if◌then◌else◌, arith,
}
use wisp_shell.Protocol.Failure.{Failure, terminal_not_found, size_out_of_range, channel_closed}
use wisp_shell.Android.Terminal.{Terminal, TerminalCommand, input, resize_to, close}

-- An `i32`.
pub data ℤ : Type 0 where
  pos : ℕ → ℤ
  negsuc : ℕ → ℤ

-- `u16::try_from`
abbrev pub u16_try_from : ℤ → Option ℕ
u16_try_from (pos n) = if ltb n (2 ^ 16) then some n else none
u16_try_from (negsuc n) = none

pub record Bridge : Type 0 where
  pub next_handle : ℕ
  pub terminals : List (ℕ × Terminal)

abbrev pub started : Bridge
started = record { next_handle = 1; terminals = [] }

-- `HashMap::get`, `insert` and `remove` on handles.
unfoldable pub find : List (ℕ × Terminal) → ℕ → Option Terminal
find [] handle = none
find ((h, t) ∷ ts) handle = if h == handle then some t else find ts handle

unfoldable pub put : List (ℕ × Terminal) → ℕ → Terminal → List (ℕ × Terminal)
put [] handle t = (handle, t) ∷ []
put ((h, u) ∷ ts) handle t = if h == handle then (h, t) ∷ ts else (h, u) ∷ put ts handle t

unfoldable pub remove : List (ℕ × Terminal) → ℕ → List (ℕ × Terminal)
remove [] handle = []
remove ((h, t) ∷ ts) handle =
    let rest = remove ts handle in if h == handle then rest else (h, t) ∷ rest

-- The end of `connectP2pTerminal`: the terminal gets the next handle.
unfoldable pub open_terminal : Bridge → Terminal → ℕ × Bridge
unfolding put
open_terminal b t = (
  b.next_handle,
  record {
    next_handle = (b.next_handle + 1) % 2 ^ 64;
    terminals = put b.terminals b.next_handle t;
  },
)

-- `commands.send`: an error when the task that receives has ended.
abbrev pub send : Terminal → TerminalCommand → Result Failure Terminal
send t command =
    if t.receiving
    then ok (record t { commands = t.commands ++ command ∷ [] })
    else err channel_closed

unfoldable pub send_terminal_input : Bridge → ℕ → List ℕ → Result Failure Bridge
unfolding find put
send_terminal_input b handle bytes = do
  t ← ok_or (find b.terminals handle) terminal_not_found
  t' ← send t (input bytes)
  ok (record b { terminals = put b.terminals handle t' })

unfoldable pub resize_terminal : Bridge → ℕ → ℤ → ℤ → Result Failure Bridge
unfolding find put
resize_terminal b handle cols rows = do
  t ← ok_or (find b.terminals handle) terminal_not_found
  cols' ← ok_or (u16_try_from cols) size_out_of_range
  rows' ← ok_or (u16_try_from rows) size_out_of_range
  t' ← send t (resize_to cols' rows')
  ok (record b { terminals = put b.terminals handle t' })

-- The terminal that leaves the table still gets the command to close, if its task receives.
unfoldable pub close_terminal : Bridge → ℕ → Option (Result Failure Terminal) × Bridge
unfolding find remove
close_terminal b handle = elim (find b.terminals handle) [
  | none ↦ (none, b)
  | some t ↦ (some (send t close), record b { terminals = remove b.terminals handle })
]
