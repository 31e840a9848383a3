-- ===== src/Protocol/Failure.antt =====
-- The errors of the program. `anyhow` errors carry a message; each `bail!`, `anyhow!` and `?` site
-- of the modelled functions has a constructor here.
pub data Failure : Type 0 where
  -- crates/wispshell-protocol/src/messages.rs
  session_id_too_long payload_too_large short_payload_too_large invalid_magic : Failure
  short_length_too_large incomplete_short_length : Failure
  -- crates/wispshell-protocol/src/pairing_code.rs
  code_prefix code_length code_characters : Failure
  -- crates/wispshell-protocol/src/crypto.rs and signing.rs
  invalid_base64 invalid_private_key_length : Failure
  invalid_public_key_length invalid_signature_length invalid_public_key : Failure
  -- the streams
  unexpected_eof invalid_utf8 invalid_json connection_closed : Failure
  -- the handshake
  no_node_address expected_hello protocol_mismatch untrusted_client expected_auth : Failure
  client_signature_invalid expected_challenge challenge_mismatch expected_auth_ok : Failure
  daemon_signature_invalid : Failure
  -- the sessions
  session_not_found not_input_owner pty_failed : Failure
  -- pairing
  mismatched_binding cloud_error : Failure
  -- the store
  invalid_time unique_constraint : Failure
  -- the phone's terminals
  terminal_not_found size_out_of_range channel_closed native_panic jni_failed : Failure
  -- pairing links
  invalid_pairing_uri missing_pairing_field unsupported_pairing_version : Failure
  invalid_number pairing_uri_expired : Failure
  -- the daemon's files
  no_data_dir io_failed : Failure
  -- the command line
  missing_argument : Failure
