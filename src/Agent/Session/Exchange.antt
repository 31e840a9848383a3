-- ===== src/Agent/Session/Exchange.antt =====
-- A session's reader thread (`spawn_session` of components/agent/src/pty.rs) beside an attachment
-- (`attach_or_create` of session.rs). The thread takes an output into the scrollback, then sends it
-- to the subscribed receivers; the attachment reads the scrollback, then subscribes. Each of the
-- four is one step under a lock of its own, and the steps of the two come in any order. The
-- receiver is one that keeps up with the sender: Agent.Serve.Task has one that does not.
pub mod Exactness
pub mod Races
use wisp_shell.Prelude.{ℕ, ◌≡◌, Option, none, some, List, [], ◌∷◌, ◌++◌}
use wisp_shell.Agent.Scrollback.{append_scrollback, replay_scrollback}

-- Where the attachment is: it has its replay, then also what the channel delivered.
pub data Attachment : Type 0 where
  before : Attachment
  replayed : (scrollback : List (List ℕ)) → Attachment
  subscribed : (scrollback delivered : List (List ℕ)) → Attachment

-- `sent` is all that the thread has sent, `pending` an output that it has taken in and not sent.
pub record Exchange : Type 0 where
  pub ring : List (List ℕ)
  pub pending : Option (List ℕ)
  pub sent : List (List ℕ)
  pub attachment : Attachment

abbrev pub opened : Exchange
opened = record { ring = []; pending = none; sent = []; attachment = before }

-- `tx.send`: those who have subscribed get the output.
abbrev pub deliver : Attachment → List ℕ → Attachment
deliver before bytes = before
deliver (replayed r) bytes = replayed r
deliver (subscribed r d) bytes = subscribed r (d ++ bytes ∷ [])

-- What the client is shown.
abbrev pub shown : Attachment → List (List ℕ)
shown before = []
shown (replayed r) = r
shown (subscribed r d) = r ++ d

module _ (max_scrollback scrollback_replay_bytes : ℕ) where
  abbrev pub take_in : Exchange → List ℕ → Exchange
  take_in s bytes = record s {
    ring = append_scrollback s.ring max_scrollback bytes;
    pending = some bytes;
  }

  abbrev pub replay_of : Exchange → List (List ℕ)
  replay_of s = replay_scrollback s.ring scrollback_replay_bytes

  pub data Step (s : Exchange) : Exchange → Type 0 where
    take : (bytes : List ℕ) → s.pending ≡ none → Step s (take_in s bytes)
    send :
        (bytes : List ℕ)
        → s.pending ≡ some bytes
        → Step s (record s {
          pending = none;
          sent = s.sent ++ bytes ∷ [];
          attachment = deliver s.attachment bytes;
        })
    replay : s.attachment ≡ before → Step s (record s { attachment = replayed (replay_of s) })
    subscribe :
        (r : List (List ℕ))
        → s.attachment ≡ replayed r
        → Step s (record s { attachment = subscribed r [] })

  pub data Reach (s : Exchange) : Exchange → Type 0 where
    here : Reach s s
    next : {t u : Exchange} → Reach s t → Step t u → Reach s u

  -- The attachment with no step of the thread between its own two.
  abbrev pub attached_at_once : Exchange → Exchange
  attached_at_once s = record s { attachment = subscribed (replay_of s) [] }
