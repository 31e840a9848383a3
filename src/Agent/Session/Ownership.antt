-- ===== src/Agent/Session/Ownership.antt =====
-- Who may type into a session (components/agent/src/session.rs).
use wisp_shell.Prelude.{
  ◌≡◌, ◌≢◌, refl, Option, none, some, List, Str, str_eq_iff, str_eq_refl, Result, ok, err, ℕ, arith,
}
use wisp_shell.Prelude.HashMap.{modify}
use wisp_shell.Protocol.Failure.{Failure, not_input_owner, pty_failed}
use wisp_shell.Agent.Session.{
  Pty, SessionRuntime, SessionManager, SessionAttachResult, find_id, by_id, attach_or_create, input,
  new,
}
use wisp_shell.Agent.Session.Invariant.{IsWellFormed, attach-IsWellFormed}

module _ {Handle : Type 0} where
  pub input_owned :
      (p : Pty Handle) (m m' : SessionManager Handle) (client id : Str) (bytes : List ℕ)
      → input p m client id bytes ≡ ok m'
      → (name : Str) × (s : SessionRuntime Handle) × (pty : Handle) × (by_id m id ≡ ok (name, s))
        × (s.input_owner ≡ some client)
        × (p.write_all s.pty bytes ≡ some pty)
        × (m' ≡ record m {
          inner = modify m.inner name (λ (x : SessionRuntime Handle). record x { pty = pty });
        })
  unfolding input
  input_owned p m m' client id bytes e = by_session (by_id m id) refl
    where
      by_session :
          (o : Result Failure (Str × SessionRuntime Handle))
          → by_id m id ≡ o
          → (name : Str) × (s : SessionRuntime Handle) × (pty : Handle) × (by_id m id
              ≡ ok (name, s))
            × (s.input_owner ≡ some client)
            × (p.write_all s.pty bytes ≡ some pty)
            × (m' ≡ record m {
              inner = modify m.inner name (λ (x : SessionRuntime Handle). record x { pty = pty });
            })
      by_session (err x) q = absurd (ground (arith, e, q))
      by_session (ok (name, s)) q = by_owner s.input_owner (p.write_all s.pty bytes) refl refl
        where
          by_owner :
              (o : Option Str) (h : Option Handle)
              → s.input_owner ≡ o
              → p.write_all s.pty bytes ≡ h
              → (name : Str) × (s : SessionRuntime Handle) × (pty : Handle) × (by_id m id
                  ≡ ok (name, s))
                × (s.input_owner ≡ some client)
                × (p.write_all s.pty bytes ≡ some pty)
                × (m' ≡ record m {
                  inner =
                      modify m.inner name (λ (x : SessionRuntime Handle). record x { pty = pty });
                })
          by_owner none h a b = absurd (ground (arith, e, q, a, b))
          by_owner (some owner) none a b = absurd (ground (arith, e, q, a, b))
          by_owner (some owner) (some pty) a b = (
            name,
            s,
            pty,
            q,
            ground (arith, e, q, a, b, str_eq_iff owner client),
            b,
            ground (arith, e, q, a, b),
          )

  -- After a client attached, only this client may type into the session that it got: the input of
  -- another is refused, and its own fails only if the terminal fails. The sessions are well formed
  -- before, and the id of a new session is unused.
  pub input-attach_or_create :
      (standard : List ℕ → Str) (p : Pty Handle) (m m' : SessionManager Handle)
      (client other name : Str) (cols rows : ℕ) (uuid : Str) (now : ℕ) (r : SessionAttachResult)
      (bytes : List ℕ)
      → IsWellFormed m
      → find_id m.inner uuid ≡ none
      → attach_or_create standard p m client name cols rows uuid now ≡ ok (r, m')
      → other ≢ client
      → (input p m' other r.session_id bytes ≡ err not_input_owner)
        × ((e : Failure) → input p m' client r.session_id bytes ≡ err e → e ≡ pty_failed)
  unfolding input
  input-attach_or_create standard p m m' client other name cols rows uuid now r bytes w new e
        differs =
      let (w', s, found) =
        attach-IsWellFormed standard p m client name cols rows uuid now r m' w new e in
      (
        ground (arith, found, differs, str_eq_iff client other),
        λ x f. ground (arith, found, f, str_eq_refl client),
      )
