-- ===== src/Agent/Examples/Exchange.antt =====
-- The theorems on an attachment beside the reader thread at concrete outputs.
use wisp_shell.Prelude.{◌≡◌, refl, none, [], ◌∷◌, ◌++◌}
use wisp_shell.Agent.Scrollback.{append_scrollback, replay_scrollback}
use wisp_shell.Agent.Scrollback.Window.{concat}
use wisp_shell.Agent.Session.Exchange.{
  subscribed, Exchange, opened, shown, take_in, Reach, attached_at_once,
}
use wisp_shell.Agent.Session.Exchange.Races.{lost}
use wisp_shell.Agent.Examples.{abc, def}

-- After one output.
abbrev once : Exchange
once = record (take_in 100 50 opened abc) { pending = none; sent = abc ∷ [] }

-- After an attachment, and one more output.
abbrev twice : Exchange
twice = record (take_in 100 50 (attached_at_once 100 50 once) def) {
  pending = none;
  sent = abc ∷ def ∷ [];
  attachment = subscribed (replay_scrollback once.ring 50) (def ∷ []);
}

shown_test : concat (shown twice.attachment) ≡ abc ++ def
unfolding concat append_scrollback replay_scrollback
shown_test = refl

lost_example :
    (t : Exchange) × Reach 100 50 once t
    × (t.sent ≡ abc ∷ def ∷ [])
    × (t.pending ≡ none)
    × (t.attachment ≡ subscribed (replay_scrollback once.ring 50) [])
lost_example = lost 100 50 once def refl refl
