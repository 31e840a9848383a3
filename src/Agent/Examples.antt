-- ===== src/Agent/Examples.antt =====
-- The daemon's theorems at concrete inputs, and runs of its functions on the inputs of the
-- program's tests.
mod Transport
mod Serve
mod StateCode
mod Commands
mod Exchange
use wisp_shell.Prelude.{
  ℕ, ◌≡◌, ◌≢◌, refl, sym, ap, ◌∙◌, ◌+◌, ◌-◌, ◌≤◌, Bool, true, false, Option, none, some, List, [],
  ◌∷◌, ◌++◌, Str, text, Result, ok, err, arith, length, drop, if◌then◌else◌,
}
use wisp_shell.Protocol.Failure.{Failure, not_input_owner, pty_failed}
use wisp_shell.Protocol.Messages.{ClientToAgent, client_hello, ClientHello, agent_auth_ok}
use wisp_shell.Protocol.Frames.{encode_short_binary_frame, encode_binary_frame}
use wisp_shell.Protocol.Frames.Header.{frame_bytes}
use wisp_shell.Protocol.Crypto.Toy.{toy, toy-IsLawful}
use wisp_shell.Protocol.Signing.{DeviceKeypair, public_key_b64, private_key_b64, sign_b64}
use wisp_shell.Protocol.Signing.Keys.{restore-private_key}
use wisp_shell.Cloud.Rendezvous.{RendezvousInfo}
use wisp_shell.Agent.Scrollback.{append_scrollback, replay_scrollback, record_outputs}
use wisp_shell.Agent.Scrollback.Window.{concat, concat-replay_scrollback}
use wisp_shell.Agent.Scrollback.Trim.{IsTrimmed, append_scrollback-IsTrimmed, replay_suffix}
use wisp_shell.Agent.Session.{
  Pty, SessionManager, SessionRuntime, SessionAttachResult, attach_or_create, input, new, find_id,
}
use wisp_shell.Agent.Session.Invariant.{IsWellFormed}
use wisp_shell.Agent.Session.Ownership.{input-attach_or_create}
use wisp_shell.Agent.Session.Reachable.{Reachable, started, attaching, Reachable-IsWellFormed}
use wisp_shell.Agent.Streams.{Json, json, binary, short_binary, read_client_stream_frame}
use wisp_shell.Agent.Streams.RoundTrip.{
  read-encode_short_binary_frame, read-encode_binary_frame, read-client_to_vec,
}
use wisp_shell.Agent.State.{AgentState, trust_client, is_trusted}
use wisp_shell.Agent.State.Trust.{is_trusted-trust_client}
use wisp_shell.Agent.Handshake.{
  handle_authenticated_stream, connect, hello_message, challenge, daemon_transcript, refreshed,
}
use wisp_shell.Agent.Handshake.Soundness.{
  IsAuthenticated, handle_authenticated_stream-IsAuthenticated,
}
use wisp_shell.Agent.Handshake.Agreement.{IsReadable, auth_message, honest_handshake}

abbrev abc : List ℕ
abc = text "abc"

abbrev def : List ℕ
def = text "def"

abbrev ghi : List ℕ
ghi = text "ghi"

-- append_scrollback_keeps_newest_bytes_under_limit
append_test :
    append_scrollback (append_scrollback (append_scrollback [] 6 abc) 6 def) 6 ghi ≡ def ∷ ghi ∷ []
unfolding append_scrollback
append_test = refl

-- replay_scrollback_trims_oversized_oldest_selected_chunk
replay_test : replay_scrollback (text "abcdef" ∷ ghi ∷ []) 5 ≡ text "ef" ∷ ghi ∷ []
unfolding replay_scrollback
replay_test = refl

append_scrollback-IsTrimmed_example :
    IsTrimmed 6 (abc ∷ def ∷ ghi ∷ []) (append_scrollback (abc ∷ def ∷ []) 6 ghi)
append_scrollback-IsTrimmed_example = append_scrollback-IsTrimmed (abc ∷ def ∷ []) 6 ghi

-- A terminal whose state is what was written to it.
abbrev pty : Pty (List ℕ)
pty = record {
  openpty = λ shell cols rows. some [];
  write_all = λ written bytes. some (written ++ bytes);
  set_size = λ written cols rows. some written;
}

abbrev standard : List ℕ → Str
standard bytes = bytes

abbrev manager : SessionManager (List ℕ)
manager = new (text "sh") 100 50

abbrev phone : Str
phone = text "phone"

abbrev work : Str
work = text "work"

abbrev id : Str
id = text "s1"

abbrev attached : Result Failure (SessionAttachResult × SessionManager (List ℕ))
attached = attach_or_create standard pty manager phone work 80 24 id 1

abbrev attach_result : SessionAttachResult
attach_result = record {
  session_id = id;
  session_name = work;
  cols = 80;
  rows = 24;
  scrollback_b64 = [];
}

abbrev work_session : SessionRuntime (List ℕ)
work_session = record {
  id = id;
  name = work;
  created_at = 1;
  last_active_at = 1;
  cols = 80;
  rows = 24;
  scrollback = [];
  attached_clients = phone ∷ [];
  input_owner = some phone;
  pty = [];
}

abbrev running : SessionManager (List ℕ)
running = record manager { inner = (work, work_session) ∷ [] }

attaches : attached ≡ ok (attach_result, running)
unfolding attach_or_create wisp_shell.Prelude.HashMap.get wisp_shell.Prelude.HashMap.insert
attaches = refl

empty-IsWellFormed : IsWellFormed manager
empty-IsWellFormed = record { keyed = tt; distinct = tt }

id_unused : find_id manager.inner id ≡ none
unfolding find_id
id_unused = refl

differs : text "other" ≢ phone
differs = λ e. ground (arith, e)

input-attach_or_create_example :
    (input pty running (text "other") id abc ≡ err not_input_owner)
    × ((e : Failure) → input pty running phone id abc ≡ err e → e ≡ pty_failed)
input-attach_or_create_example =
    input-attach_or_create standard pty manager running phone (text "other") work 80 24 id 1
      attach_result abc empty-IsWellFormed id_unused attaches differs

abbrev typed : SessionManager (List ℕ)
typed = record manager { inner = (work, record work_session { pty = abc }) ∷ [] }

reached : Reachable standard pty running
reached =
    attaching phone work 80 24 id 1 attach_result (started (text "sh") 100 50) id_unused attaches

Reachable-IsWellFormed_example : IsWellFormed running
Reachable-IsWellFormed_example =
    Reachable-IsWellFormed {standard = standard} {p = pty} running reached
