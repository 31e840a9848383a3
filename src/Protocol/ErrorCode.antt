-- ===== src/Protocol/ErrorCode.antt =====
-- The error codes of crates/wispshell-protocol/src/lib.rs: one constructor for each constant.
pub data ErrorCode : Type 0 where
  invalid_request unauthorized signature_invalid pairing_expired pairing_used : ErrorCode
  pairing_not_found pairing_proof_invalid device_not_found device_not_bound : ErrorCode
  device_revoked device_offline rendezvous_unavailable protocol_version_unsupported : ErrorCode
  handshake_failed session_not_found not_input_owner pty_spawn_failed : ErrorCode
  transport_error internal_error : ErrorCode
