-- ===== src/Agent/Session/Exchange/Exactness.antt =====
-- An attachment between two outputs shows each output once.
use wisp_shell.Prelude.{ℕ, ◌≡◌, Option, none, some, List, [], ◌∷◌, ◌++◌}
use wisp_shell.Agent.Scrollback.{record_outputs}
use wisp_shell.Agent.Session.Exchange.{subscribed, Exchange}

-- The output that is taken in and not sent.
abbrev rest : Option (List ℕ) → List (List ℕ)
rest none = []
rest (some bytes) = bytes ∷ []

module _ (max limit : ℕ) where
  -- The scrollback is what the outputs so far leave.
  abbrev IsRecorded : Exchange → Type 0
  IsRecorded s = s.ring ≡ record_outputs max [] (s.sent ++ rest s.pending)

  -- What was delivered is what was sent since.
  record Delivers (r sent : List (List ℕ)) (s : Exchange) : Type 0 where
    pub delivered : List (List ℕ)
    pub joined : s.attachment ≡ subscribed r delivered
    pub since : s.sent ≡ sent ++ delivered
