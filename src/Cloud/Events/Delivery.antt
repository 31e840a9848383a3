-- ===== src/Cloud/Events/Delivery.antt =====
-- A claim reaches the daemon whose pairing it is, and no other.
use wisp_shell.Prelude.{
  ℕ, ◌+◌, ◌≡◌, ◌∙◌, ap, sym, refl, Bool, true, false, Option, none, some, List, [], ◌∷◌, ◌++◌, map,
  filter, length, drop, drop-append, append_assoc, append-nil, Str, str_eq, ok, arith,
  if◌then◌else◌,
}
use wisp_shell.Prelude.HashMap.{get}
use wisp_shell.Prelude.Broadcast.{message}
use wisp_shell.Cloud.Db.{Time, AgentEvent, PairingSession}
use wisp_shell.Cloud.App.{AppState, event_sender, send}
use wisp_shell.Cloud.Pairing.{ClaimPairingRequest, claim}
use wisp_shell.Cloud.Events.{events_for, received, handle}

abbrev pub claimed : ClaimPairingRequest → AgentEvent
claimed req = record {
  pair_id = req.pair_id;
  client_device_id = req.client_device_id;
  client_public_key = req.client_public_key;
  client_name = req.client_name;
  proof = req.proof;
}

sent-claim :
    (s s' : AppState) (req : ClaimPairingRequest) (now : Time) (answer : Str)
    → claim s req now ≡ ok (answer, s')
    → (pairing : PairingSession) × (get s.inner.pairings req.pair_id ≡ some pairing)
      × (s'.sent ≡ s.sent ++ (pairing.daemon_device_id, claimed req) ∷ [])
unfolding claim event_sender send
sent-claim s s' req now answer e = by_pairing (get s.inner.pairings req.pair_id) refl
  where
    by_pairing :
        (o : Option PairingSession)
        → get s.inner.pairings req.pair_id ≡ o
        → (pairing : PairingSession) × (get s.inner.pairings req.pair_id ≡ some pairing)
          × (s'.sent ≡ s.sent ++ (pairing.daemon_device_id, claimed req) ∷ [])
    by_pairing none p = absurd (ground (arith, e, p))
    by_pairing (some pairing) p = (pairing, p, ground (arith, e, p))

events_for-append :
    (d : Str) (xs : List (Str × AgentEvent)) (id : Str) (event : AgentEvent)
    → events_for d (xs ++ (id, event) ∷ [])
      ≡ events_for d xs ++ (if str_eq id d then event ∷ [] else [])
unfolding events_for filter
events_for-append d [] id event = ground arith
events_for-append d ((i, x) ∷ xs) id event = ground (arith, events_for-append d xs id event)

handle-append :
    (to_string : AgentEvent → Option Str) (accepts : ℕ → Bool) (n : ℕ) (xs : List AgentEvent)
    (event : AgentEvent) (json : Str)
    → ((i : ℕ) → accepts i ≡ true)
    → to_string event ≡ some json
    → handle to_string accepts n (map message (xs ++ event ∷ []))
      ≡ handle to_string accepts n (map message xs) ++ json ∷ []
unfolding handle
handle-append to_string accepts n [] event json open_ e = ground (arith, open_ n, e)
handle-append to_string accepts n (x ∷ xs) event json open_ e = ground (
  arith,
  open_ n,
  handle-append to_string accepts n xs event json open_ e,
  handle-append to_string accepts (n + 1) xs event json open_ e,
)

module _ (s s' : AppState) (old between : List (Str × AgentEvent)) (req : ClaimPairingRequest)
    (now : Time) (answer : Str) (since : s.sent ≡ old ++ between)
    (e : claim s req now ≡ ok (answer, s')) where
  received-claim :
      (d : Str)
      → (pairing : PairingSession) × (get s.inner.pairings req.pair_id ≡ some pairing)
        × (received s' d (length old)
            ≡ events_for d between
              ++ (if str_eq pairing.daemon_device_id d then claimed req ∷ [] else []))
  received-claim d =
      let (pairing, there, sent) = sent-claim s s' req now answer e in
      (
        pairing,
        there,
        ap (λ x. events_for d (drop (length old) x))
              (sent
                ∙ ap (λ x. x ++ (pairing.daemon_device_id, claimed req) ∷ []) since
                ∙ append_assoc old between ((pairing.daemon_device_id, claimed req) ∷ []))
            ∙ ap (events_for d)
                (drop-append old (between ++ (pairing.daemon_device_id, claimed req) ∷ []))
            ∙ events_for-append d between pairing.daemon_device_id (claimed req),
      )

  received_before : (d : Str) → received s d (length old) ≡ events_for d between
  received_before d =
      ap (λ x. events_for d (drop (length old) x)) since
      ∙ ap (events_for d) (drop-append old between)

  -- A claim that is answered goes to the daemon whose pairing it is and to no other, after all that
  -- was sent to it since it subscribed, while the event has a text, the socket takes what is sent
  -- and the channel holds what was not read.
  pub handle-claim :
      (d : Str) (to_string : AgentEvent → Option Str) (accepts : ℕ → Bool) (json : Str)
      → ((i : ℕ) → accepts i ≡ true)
      → to_string (claimed req) ≡ some json
      → (pairing : PairingSession) × (get s.inner.pairings req.pair_id ≡ some pairing)
        × (handle to_string accepts 0 (map message (received s' d (length old)))
            ≡ handle to_string accepts 0 (map message (received s d (length old)))
              ++ (if str_eq pairing.daemon_device_id d then json ∷ [] else []))
  handle-claim d to_string accepts json open_ text =
      let (pairing, there, got) = received-claim d in
      let texts = λ (events : List AgentEvent). handle to_string accepts 0 (map message events) in
      (
        pairing,
        there,
        ap texts got
            ∙ texts-append (events_for d between) (str_eq pairing.daemon_device_id d)
            ∙ ap
                (λ (x : List Str).
                  x ++ (if str_eq pairing.daemon_device_id d then json ∷ [] else []))
                (ap texts (sym (received_before d))),
      )
    where
      texts-append :
          (events : List AgentEvent) (own : Bool)
          → handle to_string accepts 0
              (map message (events ++ (if own then claimed req ∷ [] else [])))
            ≡ handle to_string accepts 0 (map message events) ++ (if own then json ∷ [] else [])
      texts-append events true =
          handle-append to_string accepts 0 events (claimed req) json open_ text
      texts-append events false =
          ap (λ x. handle to_string accepts 0 (map message x)) (append-nil events)
          ∙ sym (append-nil (handle to_string accepts 0 (map message events)))
