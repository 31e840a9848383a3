-- ===== src/Cloud/Examples/Events.antt =====
-- A claim that reaches its daemon.
use wisp_shell.Prelude.{
  ◌≡◌, refl, true, none, some, [], ◌∷◌, ◌++◌, map, text, str_eq, ok, if◌then◌else◌,
}
use wisp_shell.Prelude.HashMap.{get}
use wisp_shell.Prelude.Broadcast.{message}
use wisp_shell.Cloud.Db.{empty, PairingSession}
use wisp_shell.Cloud.App.{AppState}
use wisp_shell.Cloud.Pairing.{ClaimPairingRequest, claim}
use wisp_shell.Cloud.Events.{received, handle}
use wisp_shell.Cloud.Events.Delivery.{claimed, handle-claim}

abbrev pairing : PairingSession
pairing = record {
  pair_id = text "p1";
  daemon_device_id = text "daemon";
  daemon_public_key = text "key";
  expires_at = 100;
  used_at = none;
  created_at = 1;
}

abbrev listening : AppState
listening = record {
  inner = record empty { pairings = (text "p1", pairing) ∷ [] };
  events = text "daemon" ∷ [];
  sent = [];
  store = none;
}

abbrev claim_request : ClaimPairingRequest
claim_request = record {
  pair_id = text "p1";
  client_device_id = text "phone";
  client_public_key = text "phone key";
  client_name = text "my phone";
  proof = text "proof";
  client_signature = none;
}

abbrev told : AppState
told = record listening { sent = (text "daemon", claimed claim_request) ∷ [] }

claims : claim listening claim_request 50 ≡ ok (text "pending", told)
unfolding claim get str_eq
claims = refl

handle-claim_example :
    (p : PairingSession) × (get listening.inner.pairings (text "p1") ≡ some p)
    × (handle (λ e. some e.proof) (λ n. true) 0 (map message (received told (text "daemon") 0))
        ≡ handle
            (λ e. some e.proof)
            (λ n. true)
            0
            (map message (received listening (text "daemon") 0))
          ++ (if str_eq p.daemon_device_id (text "daemon") then text "proof" ∷ [] else []))
handle-claim_example =
    handle-claim listening told [] [] claim_request 50 (text "pending") refl claims (text "daemon")
      (λ e. some e.proof) (λ n. true) (text "proof") (λ i. refl) refl
