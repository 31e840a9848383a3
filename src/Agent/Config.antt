-- ===== src/Agent/Config.antt =====
-- The daemon's configuration, components/agent/src/config.rs, and its command line, main.rs. The
-- environment and the file system are arguments: `Surrounding` has what the code asks of them, a
-- variable that is unset being none. Reading and writing the file is left out.
use wisp_shell.Prelude.{
  ℕ, ◌*◌, ◌≡◌, refl, Bool, true, false, Option, none, some, List, [], ◌∷◌, Str, text, str_eq,
  str_eq_iff, Result, ok, err, if◌then◌else◌, arith,
}
use wisp_shell.Protocol.Failure.{Failure, missing_argument}
use wisp_shell.Agent.Session.{SessionManager, new}

pub record AgentConfig : Type 0 where
  pub cloud_url : Str
  pub relay_url : Str
  pub device_name : Str
  pub shell : Str
  pub scrollback_bytes : ℕ
  pub scrollback_replay_bytes : ℕ
  pub iroh_bind_addr : Str
  pub iroh_bind_prefix_len : ℕ

pub record Surrounding : Type 0 where
  pub wispshell_cloud_url : Option Str
  pub wispshell_relay_url : Option Str
  pub hostname : Str
  pub shell : Option Str
  pub has_bash : Bool

abbrev pub default_scrollback_replay_bytes : ℕ
default_scrollback_replay_bytes = 64 * 1024

abbrev pub default_iroh_bind_prefix_len : ℕ
default_iroh_bind_prefix_len = 24

abbrev pub unwrap_or {ℓ} : {A : Type ℓ} → Option A → A → A
unwrap_or none a = a
unwrap_or (some b) a = b

-- `AgentConfig::default`
abbrev pub default_config : Surrounding → AgentConfig
default_config e = record {
  cloud_url = unwrap_or e.wispshell_cloud_url (text "https://wisp.biplabs.com");
  relay_url = unwrap_or e.wispshell_relay_url (text "https://wisp-relay.biplabs.com");
  device_name = e.hostname;
  shell = [];
  scrollback_bytes = 1048576;
  scrollback_replay_bytes = default_scrollback_replay_bytes;
  iroh_bind_addr = [];
  iroh_bind_prefix_len = default_iroh_bind_prefix_len;
}

abbrev pub is_empty : Str → Bool
is_empty [] = true
is_empty (c ∷ s) = false

-- The shell, if one is named by more than the empty text.
abbrev pub nonempty_or : Option Str → Str → Str
nonempty_or none default = default
nonempty_or (some s) default = if is_empty s then default else s

unfoldable pub shell_command : AgentConfig → Surrounding → Str
shell_command config e =
    nonempty_or (some config.shell)
      (nonempty_or e.shell (if e.has_bash then text "/bin/bash" else text "/bin/sh"))

-- A session's shell is never the empty command, whatever the file and the environment say.
shell_command-nonempty :
    (config : AgentConfig) (e : Surrounding) → is_empty (shell_command config e) ≡ false
unfolding shell_command
shell_command-nonempty config e = by_shell config.shell e.shell e.has_bash
  where
    by_shell :
        (s : Str) (o : Option Str) (t : Bool)
        → is_empty
            (nonempty_or (some s) (nonempty_or o (if t then text "/bin/bash" else text "/bin/sh")))
          ≡ false
    by_shell (c ∷ s) o t = refl
    by_shell [] (some (c ∷ s)) t = refl
    by_shell [] (some []) true = refl
    by_shell [] (some []) false = refl
    by_shell [] none true = refl
    by_shell [] none false = refl

-- The sessions that `run` starts with.
abbrev pub first_sessions : {Handle : Type 0} → AgentConfig → Surrounding → SessionManager Handle
first_sessions config e =
    new (shell_command config e) config.scrollback_bytes config.scrollback_replay_bytes

-- `windows(2).find(|w| w[0] == "--local-tcp")`
unfoldable pub local_bind : List Str → Str
local_bind [] = text "127.0.0.1:7777"
local_bind (a ∷ []) = text "127.0.0.1:7777"
local_bind (a ∷ (b ∷ args)) =
    let later = local_bind (b ∷ args) in if str_eq a (text "--local-tcp") then b else later

-- What `main` does on its arguments.
pub data Command : Type 0 where
  run_on : (bind : Str) → Command
  approve_with : (code : Str) → Command
  print_pairing version status devices_list : Command
  revoke_client : (client_id : Str) → Command
  install_user_service uninstall_user_service usage : Command

abbrev pub pair_command : List Str → Command
pair_command [] = print_pairing
pair_command (code ∷ args) = approve_with code

abbrev pub revoke_command : List Str → Result Failure Command
revoke_command [] = err missing_argument
revoke_command (client_id ∷ args) = ok (revoke_client client_id)

abbrev pub devices_command : List Str → Result Failure Command
devices_command [] = ok usage
devices_command (name ∷ args) =
    if str_eq name (text "list")
    then ok devices_list
    else if str_eq name (text "revoke")
    then revoke_command args
    else ok usage

unfoldable pub command : List Str → Result Failure Command
unfolding local_bind
command [] = ok usage
command (name ∷ args) =
    if str_eq name (text "run")
    then ok (run_on (local_bind args))
    else if str_eq name (text "pair")
    then ok (pair_command args)
    else if str_eq name (text "version")
    then ok version
    else if str_eq name (text "--version")
    then ok version
    else if str_eq name (text "-V")
    then ok version
    else if str_eq name (text "status")
    then ok status
    else if str_eq name (text "devices")
    then devices_command args
    else if str_eq name (text "install-user-service")
    then ok install_user_service
    else if str_eq name (text "uninstall-user-service")
    then ok uninstall_user_service
    else ok usage

-- The arguments that make the daemon forget a client are just these.
pub command-revoke_client :
    (args : List Str) (client_id : Str)
    → command args ≡ ok (revoke_client client_id)
    → (rest : List Str) × (args ≡ text "devices" ∷ text "revoke" ∷ client_id ∷ rest)
unfolding command
command-revoke_client [] client_id e = absurd (ground (arith, e))
command-revoke_client (a ∷ []) client_id e = absurd (ground (arith, e))
command-revoke_client (a ∷ (b ∷ [])) client_id e = absurd (ground (arith, e))
command-revoke_client (a ∷ (b ∷ (c ∷ rest))) client_id e =
    let first : a ≡ text "devices" = ground (arith, e, str_eq_iff a (text "devices")) in
    let second : b ≡ text "revoke" = ground (arith, e, str_eq_iff b (text "revoke")) in
    let third : c ≡ client_id = ground (arith, e) in (rest, cc (first, second, third))
