-- ===== src/Agent/Handshake/Agreement.antt =====
-- An honest client and an honest daemon finish the handshake, from the bytes that the client sends.
use wisp_shell.Prelude.{
  ℕ, ◌≡◌, refl, ap, sym, ◌∙◌, true, Option, none, some, List, [], ◌∷◌, ◌++◌, Str, str_eq,
  str_eq_iff, str_eq_refl, ok, arith,
}
use wisp_shell.Protocol.Messages.{
  protocol_version, ClientHello, ClientToAgent, client_hello, client_auth, agent_auth_ok,
}
use wisp_shell.Protocol.Crypto.{Primitives, IsLawful}
use wisp_shell.Protocol.Signing.{
  DeviceKeypair, public_key_b64, verify_b64, from_private_key_b64, sign_b64,
}
use wisp_shell.Protocol.Signing.Keys.{verify-sign_b64}
use wisp_shell.Cloud.Rendezvous.{RendezvousInfo}
use wisp_shell.Agent.State.{AgentState, is_trusted}
use wisp_shell.Agent.Streams.{Json, json}
use wisp_shell.Agent.Streams.RoundTrip.{IsLine, read-client_to_vec}
use wisp_shell.Agent.Handshake.{
  refreshed, check_hello, check_auth, handle_authenticated_stream, challenge, daemon_transcript,
  connect, answer_challenge, check_auth_ok, hello_message,
}

-- The message's JSON is read back, has no control characters and begins with a brace.
pub record IsReadable (j : Json) (message : ClientToAgent) : Type 0 where
  pub line : List ℕ
  pub braced : j.client_to_vec message ≡ 123 ∷ line
  pub plain : IsLine line
  pub back : j.client_from_slice (j.client_to_vec message) ≡ some message

device_id-refreshed :
    (state : AgentState) (latest : Option AgentState)
    → (refreshed state latest).device_id ≡ state.device_id
unfolding refreshed
device_id-refreshed state none = refl
device_id-refreshed state (some l) = ground (arith, str_eq_iff l.device_id state.device_id)

-- The client's second message in an honest run.
abbrev pub auth_message :
    Primitives → AgentState → ClientHello → DeviceKeypair → Str → ClientToAgent
auth_message c state hello client_keys daemon_nonce =
    client_auth (sign_b64 c client_keys (daemon_transcript state hello daemon_nonce))

module _ {c : Primitives} (lawful : IsLawful c) where
  greets :
      (state : AgentState) (latest : Option AgentState) (hello : ClientHello)
      → hello.protocol_version ≡ protocol_version
      → hello.daemon_device_id ≡ (refreshed state latest).device_id
      → is_trusted (refreshed state latest) hello.client_device_id hello.client_public_key ≡ true
      → check_hello state latest (json (client_hello hello)) ≡ ok (hello, refreshed state latest)
  unfolding check_hello
  greets state latest hello v d t = ground (
    arith,
    v,
    d,
    t,
    device_id-refreshed state latest,
    str_eq_iff hello.daemon_device_id state.device_id,
  )

  authenticates :
      (state : AgentState) (hello : ClientHello) (client_keys daemon_keys : DeviceKeypair)
      (daemon_nonce : Str)
      → hello.client_public_key ≡ public_key_b64 c client_keys
      → from_private_key_b64 c state.private_key ≡ ok daemon_keys
      → check_auth c state hello daemon_nonce
          (json (auth_message c state hello client_keys daemon_nonce))
        ≡ ok (sign_b64 c daemon_keys (daemon_transcript state hello daemon_nonce))
  unfolding check_auth
  authenticates state hello client_keys daemon_keys daemon_nonce own private =
      let valid : verify_b64 c hello.client_public_key (daemon_transcript state hello daemon_nonce)
            (sign_b64 c client_keys (daemon_transcript state hello daemon_nonce))
          ≡ ok true =
        ap
          (λ (key : Str).
            verify_b64 c key (daemon_transcript state hello daemon_nonce)
              (sign_b64 c client_keys (daemon_transcript state hello daemon_nonce)))
          own
        ∙ verify-sign_b64 lawful client_keys (daemon_transcript state hello daemon_nonce) in
      rw (valid, private) refl

  daemon_accepts :
      (j : Json) (state : AgentState) (latest : Option AgentState) (hello : ClientHello)
      (client_keys daemon_keys : DeviceKeypair) (daemon_nonce : Str) (rest : List ℕ)
      → hello.protocol_version ≡ protocol_version
      → hello.client_public_key ≡ public_key_b64 c client_keys
      → hello.daemon_device_id ≡ (refreshed state latest).device_id
      → is_trusted (refreshed state latest) hello.client_device_id hello.client_public_key ≡ true
      → from_private_key_b64 c (refreshed state latest).private_key ≡ ok daemon_keys
      → IsReadable j (client_hello hello)
      → IsReadable j (auth_message c (refreshed state latest) hello client_keys daemon_nonce)
      → handle_authenticated_stream c j state latest daemon_nonce (
          j.client_to_vec (client_hello hello)
          ++ 10
            ∷ (j.client_to_vec
                  (auth_message c (refreshed state latest) hello client_keys daemon_nonce)
                ++ 10 ∷ rest))
        ≡ ok (record {
          client_device_id = hello.client_device_id;
          sent =
              challenge (refreshed state latest) hello daemon_nonce
              ∷ agent_auth_ok (
                  sign_b64 c daemon_keys
                    (daemon_transcript (refreshed state latest) hello daemon_nonce))
              ∷ [];
          rest = rest;
        })
  unfolding handle_authenticated_stream
  daemon_accepts j state latest hello client_keys daemon_keys daemon_nonce rest v own d t private h
        a =
      let auth = auth_message c (refreshed state latest) hello client_keys daemon_nonce in
      rw
        (
          read-client_to_vec j (client_hello hello) h.line (j.client_to_vec auth ++ 10 ∷ rest)
              h.braced h.plain h.back,
          greets state latest hello v d t,
          read-client_to_vec j auth a.line rest a.braced a.plain a.back,
          authenticates (refreshed state latest) hello client_keys daemon_keys daemon_nonce own
              private,
        )
        refl

  client_connects :
      (info : RendezvousInfo) (state : AgentState) (client_keys daemon_keys : DeviceKeypair)
      (client_device_id binding_id client_nonce daemon_nonce address : Str)
      → info.iroh_node_addr ≡ some address
      → info.daemon_device_id ≡ state.device_id
      → info.daemon_public_key ≡ state.public_key
      → state.public_key ≡ public_key_b64 c daemon_keys
      → let hello = hello_message c info client_keys client_device_id binding_id client_nonce in
        connect c info client_keys client_device_id binding_id client_nonce
          (challenge state hello daemon_nonce)
          (agent_auth_ok (sign_b64 c daemon_keys (daemon_transcript state hello daemon_nonce)))
        ≡ ok (client_hello hello ∷ auth_message c state hello client_keys daemon_nonce ∷ [])
  unfolding connect answer_challenge check_auth_ok hello_message
  client_connects info state client_keys daemon_keys client_device_id binding_id client_nonce
        daemon_nonce address a d key own =
      let hello = hello_message c info client_keys client_device_id binding_id client_nonce in
      let t = daemon_transcript state hello daemon_nonce in
      let valid : verify_b64 c state.public_key t (sign_b64 c daemon_keys t) ≡ ok true =
        ap (λ (k : Str). verify_b64 c k t (sign_b64 c daemon_keys t)) own
        ∙ verify-sign_b64 lawful daemon_keys t in
      rw
        (
          a,
          same state.device_id info.daemon_device_id (sym d),
          same state.public_key info.daemon_public_key (sym key),
          str_eq_refl client_nonce,
          valid,
        )
        refl
    where
      same : (x y : Str) → x ≡ y → str_eq x y ≡ true
      same x y e = ground (arith, e, str_eq_iff x y)

  -- With lawful primitives, a client and a daemon that follow the protocol finish the handshake.
  -- The client has the daemon's id and key from the rendezvous, and an address; the daemon trusts
  -- the client's id with its key and has the private key of its public key; the two JSON lines are
  -- read back. Then the daemon, reading what the client sends and whatever follows, accepts the
  -- client, and the client, given the daemon's two answers, is connected and has sent just these
  -- two messages.
  pub honest_handshake :
      (j : Json) (info : RendezvousInfo) (state : AgentState) (latest : Option AgentState)
      (client_keys daemon_keys : DeviceKeypair)
      (client_device_id binding_id client_nonce daemon_nonce address : Str) (rest : List ℕ)
      → info.iroh_node_addr ≡ some address
      → info.daemon_device_id ≡ (refreshed state latest).device_id
      → info.daemon_public_key ≡ (refreshed state latest).public_key
      → (refreshed state latest).public_key ≡ public_key_b64 c daemon_keys
      → from_private_key_b64 c (refreshed state latest).private_key ≡ ok daemon_keys
      → is_trusted (refreshed state latest) client_device_id (public_key_b64 c client_keys) ≡ true
      → IsReadable j
          (client_hello (hello_message c info client_keys client_device_id binding_id client_nonce))
      → IsReadable j (
          auth_message c
            (refreshed state latest)
            (hello_message c info client_keys client_device_id binding_id client_nonce)
            client_keys
            daemon_nonce)
      → let now = refreshed state latest in
        let hello = hello_message c info client_keys client_device_id binding_id client_nonce in
        let auth = auth_message c now hello client_keys daemon_nonce in
        let greeting = challenge now hello daemon_nonce in
        let done =
          agent_auth_ok (sign_b64 c daemon_keys (daemon_transcript now hello daemon_nonce)) in
        (handle_authenticated_stream c j state latest daemon_nonce
            (j.client_to_vec (client_hello hello) ++ 10 ∷ (j.client_to_vec auth ++ 10 ∷ rest))
          ≡ ok (record {
            client_device_id = client_device_id;
            sent = greeting ∷ done ∷ [];
            rest = rest;
          }))
        × (connect c info client_keys client_device_id binding_id client_nonce greeting done
            ≡ ok (client_hello hello ∷ auth ∷ []))
  unfolding hello_message
  honest_handshake j info state latest client_keys daemon_keys client_device_id binding_id
        client_nonce daemon_nonce address rest a d key own private trusted h u =
      (
        daemon_accepts j state latest
            (hello_message c info client_keys client_device_id binding_id client_nonce) client_keys
            daemon_keys daemon_nonce rest refl refl d trusted private h u,
        client_connects info (refreshed state latest) client_keys daemon_keys client_device_id
            binding_id client_nonce daemon_nonce address a d key own,
      )
