-- ===== src/Agent/Examples/Commands.antt =====
-- The theorems on the daemon's file at concrete inputs.
use wisp_shell.Prelude.{
  ℕ, ◌≡◌, ◌≢◌, ◌+◌, ◌==◌, refl, sym, Bool, true, false, Option, none, some, List, [], ◌∷◌, ◌++◌,
  Str, text, Result, ok, arith, length, if◌then◌else◌,
}
use wisp_shell.Protocol.Crypto.Toy.{toy, toy-IsLawful}
use wisp_shell.Protocol.Messages.{client_hello, agent_auth_ok}
use wisp_shell.Protocol.Signing.{public_key_b64, private_key_b64, sign_b64}
use wisp_shell.Agent.State.{TrustedClient, AgentState, is_trusted}
use wisp_shell.Agent.State.File.{Access, whole, StateFile, owner_only, load_or_create, path}
use wisp_shell.Agent.State.File.Stable.{IsDevice, load_or_create_stable, created-IsDevice}
use wisp_shell.Agent.Pairing.{revoke}
use wisp_shell.Agent.Handshake.{Accepted, refreshed, challenge, daemon_transcript}
use wisp_shell.Agent.Commands.{
  FileCommand, forget, edit, Phase, System, move, overwrite, resting, Reach, here, next, load,
  truncate, write, IsOrderly,
}
use wisp_shell.Agent.Commands.Races.{revoke_beside, revoke_lost, revoke_stale}
use wisp_shell.Agent.Examples.{abc, phone}
use wisp_shell.Agent.Examples.Transport.{
  daemon_state, daemon_keys, client_keys, auth, hello, trusts, named_line,
}
use wisp_shell.Agent.Examples.StateCode.{coded, coded_back, coded_unread}

abbrev laptop : TrustedClient
laptop = record {
  client_device_id = text "laptop";
  client_public_key = text "key";
  client_name = text "my laptop";
}

differs : laptop.client_device_id ≢ phone
differs = λ e. ground (arith, e)

abbrev key : Str
key = public_key_b64 toy client_keys

revoke_lost_example :
    (t : System) × (r : Reach coded (revoke_beside phone laptop) (resting coded daemon_state) t)
    × IsOrderly r
    × (t.phase 0 ≡ Phase.finished)
    × (t.phase 1 ≡ Phase.finished)
    × (latest : AgentState) × (coded.from_slice t.bytes ≡ some latest)
    × (is_trusted latest phone key ≡ true)
revoke_lost_example =
    revoke_lost coded coded_back coded_unread daemon_state phone key laptop trusts differs

revoke_stale_example :
    (t : System) × (r : Reach coded (revoke_beside phone laptop) (resting coded daemon_state) t)
    × (t.phase 0 ≡ Phase.finished)
    × (coded.from_slice t.bytes ≡ none)
    × (is_trusted (refreshed daemon_state (coded.from_slice t.bytes)) phone key ≡ true)
revoke_stale_example =
    revoke_stale coded coded_back coded_unread daemon_state phone key laptop trusts

abbrev access : Access
access = record {
  data_dir = some (text "data");
  readable = true;
  makes_dir = true;
  writing = whole;
  permits = true;
  new_mode = 420;
}

abbrev kept : StateFile
kept = record { bytes = coded.to_vec_pretty daemon_state; mode = owner_only }

reads : load_or_create coded toy access client_keys (some kept) ≡ (ok daemon_state, some kept)
unfolding load_or_create path
reads = rw (coded_back daemon_state) refl

load_or_create_stable_example :
    load_or_create coded toy access daemon_keys (some kept) ≡ (ok daemon_state, some kept)
unfolding path
load_or_create_stable_example =
    load_or_create_stable coded coded_back toy access access client_keys daemon_keys daemon_state
      (some kept) (some kept) (text "data/agent-state.json") reads refl refl

abbrev new_state : AgentState
new_state = record {
  device_id = daemon_keys.signing_key;
  private_key = private_key_b64 toy daemon_keys;
  public_key = public_key_b64 toy daemon_keys;
  trusted_clients = [];
}

made :
    load_or_create coded toy access daemon_keys none
    ≡ (ok new_state, some (record { bytes = coded.to_vec_pretty new_state; mode = owner_only }))
unfolding load_or_create path toy
made = refl

created-IsDevice_example : IsDevice toy new_state × (new_state.trusted_clients ≡ [])
created-IsDevice_example =
    created-IsDevice coded toy-IsLawful access daemon_keys new_state
      (some (record { bytes = coded.to_vec_pretty new_state; mode = owner_only })) refl made

abbrev guest : Str
guest = text "guest"

abbrev current : AgentState
current = revoke daemon_state guest

abbrev commands : ℕ → FileCommand
commands i = forget (text "tablet")

abbrev after_tablet : AgentState
after_tablet = revoke current (text "tablet")

abbrev written : System
written =
    move
      (move
        (move (resting coded current) 0 (coded.to_vec_pretty current) (Phase.holding after_tablet))
        0 [] (Phase.writing after_tablet))
      0 (overwrite (coded.to_vec_pretty after_tablet) []) Phase.finished

runs : Reach coded commands (resting coded current) written
unfolding edit
runs =
    next
      (next (next here (load 0 current refl (coded_back current))) (truncate 0 after_tablet refl))
      (write 0 after_tablet refl)

abbrev line : List ℕ
line = named_line (client_hello hello) ++ 10 ∷ (named_line auth ++ 10 ∷ abc)

abbrev accepted : Accepted
accepted = record {
  client_device_id = phone;
  sent =
      challenge daemon_state hello (text "n2")
      ∷ agent_auth_ok (sign_b64 toy daemon_keys (daemon_transcript daemon_state hello (text "n2")))
      ∷ [];
  rest = abc;
}
