-- ===== src/Protocol/Messages.antt =====
-- crates/wispshell-protocol/src/messages.rs: the messages and the frame constants. `u8`, `u16`,
-- `u32` and `usize` are native numbers; JSON text of a message is serde's (Agent.Streams).
use wisp_shell.Prelude.{ℕ, ◌*◌, Str, List, Option}

abbrev pub binary_frame_magic : ℕ
binary_frame_magic = 0x1e

abbrev pub binary_frame_header_len : ℕ
binary_frame_header_len = 8

abbrev pub short_binary_frame_magic : ℕ
short_binary_frame_magic = 0x1f

abbrev pub binary_kind_client_input : ℕ
binary_kind_client_input = 1

abbrev pub binary_kind_agent_output : ℕ
binary_kind_agent_output = 2

abbrev pub max_binary_session_id_len : ℕ
max_binary_session_id_len = 4096

abbrev pub max_binary_payload_len : ℕ
max_binary_payload_len = 16 * 1024 * 1024

abbrev pub protocol_version : ℕ
protocol_version = 1

pub record ClientHello : Type 0 where
  pub protocol_version : ℕ
  pub client_device_id : Str
  pub client_public_key : Str
  pub daemon_device_id : Str
  pub binding_id : Str
  pub nonce : Str

pub data ClientToAgent : Type 0 where
  client_hello : ClientHello → ClientToAgent
  client_auth : (signature : Str) → ClientToAgent
  attach : (session_name : Str) (cols rows : ℕ) → ClientToAgent
  input : (session_id data_b64 : Str) → ClientToAgent
  resize : (session_id : Str) (cols rows : ℕ) → ClientToAgent
  detach : (session_id : Str) → ClientToAgent
  ping : (nonce : Str) → ClientToAgent

pub record AgentChallenge : Type 0 where
  pub daemon_device_id : Str
  pub daemon_public_key : Str
  pub client_nonce : Str
  pub daemon_nonce : Str

pub data AgentToClient : Type 0 where
  agent_challenge : AgentChallenge → AgentToClient
  agent_auth_ok : (signature : Str) → AgentToClient
  session_attached : (session_id session_name : Str) (cols rows : ℕ) → AgentToClient
  scrollback : (session_id : Str) (chunks_b64 : List Str) → AgentToClient
  output : (session_id data_b64 : Str) → AgentToClient
  session_exited : (session_id : Str) (exit_code : Option ℕ) → AgentToClient
  error : (code message : Str) → AgentToClient
  pong : (nonce : Str) → AgentToClient

pub record BinaryFrame : Type 0 where
  pub kind : ℕ
  pub session_id : Str
  pub payload : List ℕ

pub record ShortBinaryFrame : Type 0 where
  pub payload : List ℕ

pub record BindingCertificate : Type 0 where
  pub binding_id : Str
  pub daemon_device_id : Str
  pub daemon_public_key : Str
  pub client_device_id : Str
  pub client_public_key : Str
  pub permissions : List Str
  pub created_at : ℕ

pub record PairingPayload : Type 0 where
  pub v : ℕ
  pub cloud : Str
  pub pair_id : Str
  pub daemon_id : Str
  pub daemon_pub : Str
  pub secret : Str
  pub expires : ℕ
