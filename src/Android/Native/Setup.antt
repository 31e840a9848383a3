-- ===== src/Android/Native/Setup.antt =====
-- The identity that the phone keeps, and a terminal's first message.
use wisp_shell.Prelude.{
  ℕ, ◌+◌, ◌^◌, ◌<◌, ◌≡◌, ◌∙◌, ap, refl, sym, subst, append_assoc, Bool, true, false, Option, none,
  some, List, [], ◌∷◌, ◌++◌, length, Str, Result, ok, err, arith,
}
use wisp_shell.Protocol.Failure.{Failure}
use wisp_shell.Protocol.Messages.{AgentToClient, attach}
use wisp_shell.Protocol.Crypto.{Primitives, IsLawful}
use wisp_shell.Protocol.Signing.{DeviceKeypair, device_id, private_key_b64}
use wisp_shell.Protocol.Signing.Keys.{restore-private_key}
use wisp_shell.Cloud.Rendezvous.{RendezvousInfo}
use wisp_shell.Agent.Streams.{Json, json, read_client_stream_frame}
use wisp_shell.Agent.Streams.RoundTrip.{read-client_to_vec}
use wisp_shell.Agent.Handshake.Agreement.{IsReadable}
use wisp_shell.Android.Terminal.{Terminal}
use wisp_shell.Android.Bridge.{Bridge, find, open_terminal}
use wisp_shell.Android.Bridge.Handles.{IsIssued, open_terminal-find}
use wisp_shell.Android.Native.{
  Context, initialize_android_context, Identity, generate_device_identity,
  device_identity_from_private_key, fresh_terminal, connect_p2p_terminal,
}

-- A failed set-up is not tried again: every later call reports success, and the native side never
-- gets a context.
pub initialize-failed :
    (s : Context) (vm : Bool)
    → s.marked ≡ false
    → initialize_android_context (initialize_android_context s false).1 vm
      ≡ (ok tt, record { marked = true; handed_over = s.handed_over })
unfolding initialize_android_context
initialize-failed s vm unmarked = ground (arith, unmarked)

kept-identity :
    (c : Primitives) (keys : DeviceKeypair) (id : Identity)
    → generate_device_identity c keys ≡ ok id
    → id.private_key ≡ private_key_b64 c keys
unfolding generate_device_identity device_id
kept-identity c keys id e = by_id (device_id c keys) refl
  where
    by_id :
        (r : Result Failure Str) → device_id c keys ≡ r → id.private_key ≡ private_key_b64 c keys
    by_id (err x) q = absurd (ground (arith, e, q))
    by_id (ok i) q = ground (arith, e, q)

-- With lawful primitives, the phone gets the same identity back from the private key that it keeps,
-- which has 32 bytes.
pub restore-identity :
    {c : Primitives} (lawful : IsLawful c) (keys : DeviceKeypair) (id : Identity)
    → length keys.signing_key ≡ 32
    → generate_device_identity c keys ≡ ok id
    → device_identity_from_private_key c id.private_key ≡ ok id
unfolding device_identity_from_private_key
restore-identity {c} lawful keys id long e =
    ap (device_identity_from_private_key c) (kept-identity c keys id e)
    ∙ rw (restore-private_key lawful keys long) e

-- The terminal after its attachment was written.
abbrev attaching : Primitives → Json → Str → ℕ → Terminal
attaching c j session_name now = record (fresh_terminal c now) {
  written = j.client_to_vec (attach session_name 80 24) ++ 10 ∷ [];
}

opened-connect :
    (c : Primitives) (j : Json) (b b' : Bridge) (rendezvous : Option RendezvousInfo)
    (private_key client_device_id binding_id session_name client_nonce : Str)
    (answers : Option (AgentToClient × AgentToClient)) (peer_open : Bool) (now handle : ℕ)
    → connect_p2p_terminal c j b rendezvous private_key client_device_id binding_id session_name
        client_nonce answers peer_open now
      ≡ ok (handle, b')
    → open_terminal b (attaching c j session_name now) ≡ (handle, b')
unfolding connect_p2p_terminal
opened-connect c j b b' rendezvous private_key client_device_id binding_id session_name client_nonce
      answers true now handle e =
    ground (arith, e)
opened-connect c j b b' rendezvous private_key client_device_id binding_id session_name client_nonce
      answers false now handle e =
    absurd (ground (arith, e))

-- A terminal that Java is given a handle for is a new one under that handle, whose first message
-- to the daemon is read by it as the attachment to the session, in 80 columns and 24 rows. Handles
-- have not run out, and the JSON of the message is read back.
pub connect_p2p_terminal-attaches :
    (c : Primitives) (j : Json) (b b' : Bridge) (rendezvous : Option RendezvousInfo)
    (private_key client_device_id binding_id session_name client_nonce : Str)
    (answers : Option (AgentToClient × AgentToClient)) (peer_open : Bool) (now handle : ℕ)
    (later : List ℕ)
    → IsIssued b
    → b.next_handle + 1 < 2 ^ 64
    → IsReadable j (attach session_name 80 24)
    → connect_p2p_terminal c j b rendezvous private_key client_device_id binding_id session_name
        client_nonce answers peer_open now
      ≡ ok (handle, b')
    → (find b.terminals handle ≡ none)
      × (t : Terminal) × (find b'.terminals handle ≡ some t)
      × (t.attached ≡ false)
      × (read_client_stream_frame j (t.written ++ later)
          ≡ ok (some (json (attach session_name 80 24), later)))
unfolding open_terminal
connect_p2p_terminal-attaches c j b b' rendezvous private_key client_device_id binding_id
      session_name client_nonce answers peer_open now handle later issued room h e =
    let t : Terminal = attaching c j session_name now in
    let opened =
      opened-connect c j b b' rendezvous private_key client_device_id binding_id session_name
        client_nonce answers peer_open now handle e in
    let same : b.next_handle ≡ handle = ap (λ x. x.0) opened in
    let table = open_terminal-find b t handle issued room in
    (
      subst (λ k. find b.terminals k ≡ none) same table.1,
      t,
      ap (λ x. find x.1.terminals handle) (sym opened) ∙ table.2 ∙ ground (arith, same),
      refl,
      ap (read_client_stream_frame j)
            (append_assoc (j.client_to_vec (attach session_name 80 24)) (10 ∷ []) later)
          ∙ read-client_to_vec j (attach session_name 80 24) h.line later h.braced h.plain h.back,
    )
