-- ===== src/Agent/Handshake/Soundness.antt =====
-- What each side knows when its handshake has succeeded.
use wisp_shell.Prelude.{
  ℕ, ◌≡◌, refl, Bool, true, false, Option, none, some, List, Str, str_eq_iff, Result, ok, err,
  arith,
}
use wisp_shell.Protocol.Failure.{Failure}
use wisp_shell.Protocol.Messages.{protocol_version, ClientHello}
use wisp_shell.Protocol.Crypto.{Primitives}
use wisp_shell.Protocol.Signing.{verify_b64}
use wisp_shell.Agent.State.{AgentState, is_trusted}
use wisp_shell.Agent.Streams.{Json, ClientStreamFrame, read_client_stream_frame}
use wisp_shell.Agent.Handshake.{
  Accepted, hello_of, signature_of, refreshed, check_hello, check_auth, handle_authenticated_stream,
  daemon_transcript,
}

IsGreeting : AgentState → Option AgentState → ClientHello → AgentState → Type 0
IsGreeting state latest hello state' =
    (hello.protocol_version ≡ protocol_version)
    × (hello.daemon_device_id ≡ state.device_id)
    × (state' ≡ refreshed state latest)
    × (is_trusted state' hello.client_device_id hello.client_public_key ≡ true)

check_hello_greets :
    (state : AgentState) (latest : Option AgentState) (frame : ClientStreamFrame)
    (hello : ClientHello) (state' : AgentState)
    → check_hello state latest frame ≡ ok (hello, state')
    → IsGreeting state latest hello state'
unfolding check_hello IsGreeting
check_hello_greets state latest frame hello state' e = by_hello (hello_of frame) refl
  where
    by_hello : (o : Option ClientHello) → hello_of frame ≡ o → IsGreeting state latest hello state'
    by_hello none p = absurd (ground (arith, e, p))
    by_hello (some h) p = (
      ground (arith, e, p),
      ground (arith, e, p, str_eq_iff h.daemon_device_id state.device_id),
      ground (arith, e, p),
      ground (arith, e, p),
    )

module _ (c : Primitives) where
  check_auth_verifies :
      (state : AgentState) (hello : ClientHello) (daemon_nonce : Str) (frame : ClientStreamFrame)
      (answer : Str)
      → check_auth c state hello daemon_nonce frame ≡ ok answer
      → (signature : Str) × (verify_b64 c hello.client_public_key
            (daemon_transcript state hello daemon_nonce)
            signature
          ≡ ok true)
  unfolding check_auth
  check_auth_verifies state hello daemon_nonce frame answer e =
      by_signature (signature_of frame) refl
    where
      by_signature :
          (o : Option Str)
          → signature_of frame ≡ o
          → (signature : Str) × (verify_b64 c hello.client_public_key
                (daemon_transcript state hello daemon_nonce)
                signature
              ≡ ok true)
      by_signature none p = absurd (ground (arith, e, p))
      by_signature (some signature) p =
          by_result
            (verify_b64 c hello.client_public_key (daemon_transcript state hello daemon_nonce)
              signature)
            refl
        where
          by_result :
              (r : Result Failure Bool)
              → verify_b64 c hello.client_public_key
                  (daemon_transcript state hello daemon_nonce)
                  signature
                ≡ r
              → (signature : Str) × (verify_b64 c hello.client_public_key
                    (daemon_transcript state hello daemon_nonce)
                    signature
                  ≡ ok true)
          by_result (err x) q = absurd (ground (arith, e, p, q))
          by_result (ok false) q = absurd (ground (arith, e, p, q))
          by_result (ok true) q = (signature, q)

  -- What an accepted stream shows of its client.
  pub record IsAuthenticated (state : AgentState) (latest : Option AgentState)
      (daemon_nonce client : Str) : Type 0 where
    pub hello : ClientHello
    pub signature : Str
    pub named : client ≡ hello.client_device_id
    pub version : hello.protocol_version ≡ protocol_version
    pub addressed : hello.daemon_device_id ≡ state.device_id
    pub trusted :
        is_trusted (refreshed state latest) hello.client_device_id hello.client_public_key ≡ true
    pub signed :
        verify_b64 c hello.client_public_key
          (daemon_transcript (refreshed state latest) hello daemon_nonce)
          signature
        ≡ ok true

  Succeeds : Json → AgentState → Option AgentState → Str → List ℕ → Accepted → Type 0
  Succeeds j state latest daemon_nonce bytes a =
      (hello : ClientHello) × (state' : AgentState) × (frame : ClientStreamFrame)
      × (frame' : ClientStreamFrame) × (answer : Str) × (check_hello state latest frame
          ≡ ok (hello, state'))
      × (check_auth c state' hello daemon_nonce frame' ≡ ok answer)
      × (a.client_device_id ≡ hello.client_device_id)

  handle-Succeeds :
      (j : Json) (state : AgentState) (latest : Option AgentState) (daemon_nonce : Str)
      (bytes : List ℕ) (a : Accepted)
      → handle_authenticated_stream c j state latest daemon_nonce bytes ≡ ok a
      → Succeeds j state latest daemon_nonce bytes a
  unfolding handle_authenticated_stream Succeeds
  handle-Succeeds j state latest daemon_nonce bytes a e =
      by_first (read_client_stream_frame j bytes) refl
    where
      by_first :
          (r : Result Failure (Option (ClientStreamFrame × List ℕ)))
          → read_client_stream_frame j bytes ≡ r
          → Succeeds j state latest daemon_nonce bytes a
      by_first (err x) p = absurd (ground (arith, e, p))
      by_first (ok none) p = absurd (ground (arith, e, p))
      by_first (ok (some (frame, bytes'))) p = by_hello (check_hello state latest frame) refl
        where
          by_hello :
              (r : Result Failure (ClientHello × AgentState))
              → check_hello state latest frame ≡ r
              → Succeeds j state latest daemon_nonce bytes a
          by_hello (err x) q = absurd (ground (arith, e, p, q))
          by_hello (ok (hello, state')) q = by_second (read_client_stream_frame j bytes') refl
            where
              by_second :
                  (r : Result Failure (Option (ClientStreamFrame × List ℕ)))
                  → read_client_stream_frame j bytes' ≡ r
                  → Succeeds j state latest daemon_nonce bytes a
              by_second (err x) u = absurd (ground (arith, e, p, q, u))
              by_second (ok none) u = absurd (ground (arith, e, p, q, u))
              by_second (ok (some (frame', rest))) u =
                  by_auth (check_auth c state' hello daemon_nonce frame') refl
                where
                  by_auth :
                      (r : Result Failure Str)
                      → check_auth c state' hello daemon_nonce frame' ≡ r
                      → Succeeds j state latest daemon_nonce bytes a
                  by_auth (err x) v = absurd (ground (arith, e, p, q, u, v))
                  by_auth (ok answer) v =
                      (hello, state', frame, frame', answer, q, v, ground (arith, e, p, q, u, v))

  -- A stream goes on to the sessions only for a client that said hello to this daemon in this
  -- version, that the daemon's state as read again trusts with its key, and whose signature over
  -- the transcript with the daemon's nonce verifies under that key.
  pub handle_authenticated_stream-IsAuthenticated :
      (j : Json) (state : AgentState) (latest : Option AgentState) (daemon_nonce : Str)
      (bytes : List ℕ) (a : Accepted)
      → handle_authenticated_stream c j state latest daemon_nonce bytes ≡ ok a
      → IsAuthenticated state latest daemon_nonce a.client_device_id
  unfolding Succeeds IsGreeting
  handle_authenticated_stream-IsAuthenticated j state latest daemon_nonce bytes a e =
      let (hello, state', frame, frame', answer, greeted, authentic, named) =
        handle-Succeeds j state latest daemon_nonce bytes a e in
      let (version, addressed, same, trusted) =
        check_hello_greets state latest frame hello state' greeted in
      let (signature, signed) =
        check_auth_verifies state' hello daemon_nonce frame' answer authentic in
      record {
        hello = hello;
        signature = signature;
        named = named;
        version = version;
        addressed = addressed;
        trusted = cc (same, trusted);
        signed = cc (same, signed);
      }
