-- ===== src/Agent/Session/Exchange/Races.antt =====
-- An output of the thread between the two steps of an attachment.
use wisp_shell.Prelude.{ℕ, ◌≡◌, refl, ap, ◌∙◌, none, List, [], ◌∷◌, ◌++◌, append-nil}
use wisp_shell.Agent.Scrollback.{append_scrollback, replay_scrollback}
use wisp_shell.Agent.Scrollback.Window.{concat, concat-append}
use wisp_shell.Agent.Session.Exchange.{
  before, subscribed, Exchange, shown, take_in, replay_of, take, send, replay, subscribe, Reach,
  here, next,
}

module _ (max limit : ℕ) where
  -- From any state with no output under way and no attachment begun, the thread can take in and send
  -- any output between the attachment's two steps: the client then has the replay without it, and
  -- has subscribed too late to be sent it.
  pub lost :
      (s : Exchange) (bytes : List ℕ)
      → s.attachment ≡ before
      → s.pending ≡ none
      → (t : Exchange) × Reach max limit s t
        × (t.sent ≡ s.sent ++ bytes ∷ [])
        × (t.pending ≡ none)
        × (t.attachment ≡ subscribed (replay_scrollback s.ring limit) [])
  lost s bytes e calm = (
    _,
    next (next (next (next here (replay e)) (take bytes calm)) (send bytes refl))
        (subscribe (replay_of max limit s) refl),
    refl,
    refl,
    refl,
  )

  -- An output that is under way while a client attaches is shown twice, at the end of the replay
  -- and from the channel.
  pub doubled :
      (s : Exchange) (bytes : List ℕ)
      → s.attachment ≡ before
      → s.pending ≡ none
      → (t : Exchange) × Reach max limit s t
        × (t.sent ≡ s.sent ++ bytes ∷ [])
        × (t.pending ≡ none)
        × (concat (shown t.attachment)
            ≡ concat (replay_scrollback (append_scrollback s.ring max bytes) limit) ++ bytes)
  unfolding concat
  doubled s bytes e calm =
      let r = replay_of max limit (take_in max limit s bytes) in
      (
        _,
        next (next (next (next here (take bytes calm)) (replay e)) (subscribe r refl))
            (send bytes refl),
        refl,
        refl,
        concat-append r (bytes ∷ []) ∙ ap (λ (x : List ℕ). concat r ++ x) (append-nil bytes),
      )
