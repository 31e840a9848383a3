-- ===== src/Android/Heartbeat.antt =====
-- The task of `connectP2pTerminal` that pings (crates/wispshell-core/src/android_jni.rs), over the
-- ticks of its interval, while no answer comes from the daemon.
use wisp_shell.Prelude.{ℕ, ◌+◌, ◌-◌, ◌%◌, ◌^◌, Bool, List, [], ◌∷◌, ◌++◌, Str, text, ltb}
use wisp_shell.Android.Terminal.{
  Terminal, Call, on_error, on_state, Next, again, stop, ping_with, on_tick,
}

-- The loop, as long as it goes round.
abbrev pub go_round : Next × Terminal → (Terminal → Next × Terminal) → Next × Terminal
go_round (again, t) loop = loop t
go_round (stop, t) loop = (stop, t)

-- More than thirty seconds after the last answer.
abbrev pub is_late : Terminal → ℕ → Bool
is_late t now = ltb 30000 (now - t.last_pong_ms)

abbrev pub alarm : List Call
alarm = on_error (text "terminal heartbeat timed out") ∷ on_state (text "disconnected") ∷ []

module _ (number : ℕ → Str) where
  -- `ticks` are the readings of `now_millis`.
  unfoldable pub heartbeat : Terminal → (ticks : List ℕ) → Next × Terminal
  unfolding on_tick
  heartbeat t [] = (again, t)
  heartbeat t (now ∷ ticks) = go_round (on_tick number t now) (λ t'. heartbeat t' ticks)

  abbrev pinged : Terminal → Terminal
  pinged t =
      let n = (t.nonce_counter + 1) % 2 ^ 64 in
      record t {
        nonce_counter = n;
        commands = t.commands ++ ping_with (text "android-" ++ number n) ∷ [];
      }
