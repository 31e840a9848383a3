-- ===== src/Agent/Commands/Races.antt =====
-- Two orders of steps in which a revocation that was reported as done has no effect.
use wisp_shell.Prelude.{
  ℕ, ◌≡◌, ◌≢◌, ◌==◌, refl, ◌∙◌, true, none, some, [], Str, str_eq_iff, if◌then◌else◌, arith,
}
use wisp_shell.Agent.State.{TrustedClient, AgentState, trust_client, is_trusted}
use wisp_shell.Agent.State.File.{StateJson}
use wisp_shell.Agent.State.Trust.{is_trusted-trust_client}
use wisp_shell.Agent.Pairing.{revoke}
use wisp_shell.Agent.Handshake.{refreshed}
use wisp_shell.Agent.Commands.{
  FileCommand, forget, trust, edit, Phase, System, move, overwrite, resting, load, truncate, write,
  Reach, here, next, IsOrderly,
}
use wisp_shell.Agent.Commands.Forgotten.{overwrite-empty}

-- The first process revokes a client, the others approve another one.
abbrev pub revoke_beside : Str → TrustedClient → ℕ → FileCommand
revoke_beside id client i = if i == 0 then forget id else trust client

module _ (j : StateJson) (back : (s : AgentState) → j.from_slice (j.to_vec_pretty s) ≡ some s)
    (unread : j.from_slice [] ≡ none) (state : AgentState) (id key : Str)
    (client : TrustedClient) where
  abbrev commands : ℕ → FileCommand
  commands = revoke_beside id client

  abbrev both_loaded : System
  both_loaded =
      move
        (move (resting j state) 1 (j.to_vec_pretty state)
          (Phase.holding (trust_client state client)))
        0 (j.to_vec_pretty state) (Phase.holding (revoke state id))

  abbrev revoked : System
  revoked =
      move (move both_loaded 0 [] (Phase.writing (revoke state id))) 0
        (overwrite (j.to_vec_pretty (revoke state id)) []) Phase.finished

  abbrev approving : System
  approving = move revoked 1 [] (Phase.writing (trust_client state client))

  abbrev approved : System
  approved =
      move approving 1 (overwrite (j.to_vec_pretty (trust_client state client)) []) Phase.finished

  until_approving : Reach j commands (resting j state) approving
  unfolding edit
  until_approving =
      next
        (next
          (next (next (next here (load 1 state refl (back state))) (load 0 state refl (back state)))
            (truncate 0 (revoke state id) refl))
          (write 0 (revoke state id) refl))
        (truncate 1 (trust_client state client) refl)

  until_approved : Reach j commands (resting j state) approved
  until_approved = next until_approving (write 1 (trust_client state client) refl)

  approved-IsOrderly : IsOrderly until_approved
  unfolding until_approved until_approving
  approved-IsOrderly =
      ((((((tt, tt), tt), λ k x e. ground (arith, e)), tt), λ k x e. ground (arith, e)), tt)

  -- While an approval of another client waits for the cloud, a client that is trusted is revoked; the
  -- approval then writes the copy that it read before, and the revoked client is trusted again, with
  -- both commands finished and at no time two that write. The JSON of each state is read back.
  pub revoke_lost :
      is_trusted state id key ≡ true
      → client.client_device_id ≢ id
      → (t : System) × (r : Reach j commands (resting j state) t) × IsOrderly r
        × (t.phase 0 ≡ Phase.finished)
        × (t.phase 1 ≡ Phase.finished)
        × (latest : AgentState) × (j.from_slice t.bytes ≡ some latest)
        × (is_trusted latest id key ≡ true)
  revoke_lost trusted other = (
    approved,
    until_approved,
    approved-IsOrderly,
    refl,
    refl,
    trust_client state client,
    rw (overwrite-empty (j.to_vec_pretty (trust_client state client)) [] refl)
        (back (trust_client state client)),
    is_trusted-trust_client state client id key
        ∙ ground (arith, trusted, other, str_eq_iff client.client_device_id id),
  )

  -- While another command writes, the file is empty: the daemon cannot read it, for an empty file is
  -- no JSON, and goes on with the state that it started with, which trusts a client of it whose
  -- revocation has finished since. The JSON of each state is read back.
  pub revoke_stale :
      is_trusted state id key ≡ true
      → (t : System) × (r : Reach j commands (resting j state) t) × (t.phase 0 ≡ Phase.finished)
        × (j.from_slice t.bytes ≡ none)
        × (is_trusted (refreshed state (j.from_slice t.bytes)) id key ≡ true)
  unfolding refreshed
  revoke_stale trusted = (approving, until_approving, refl, unread, rw unread trusted)
