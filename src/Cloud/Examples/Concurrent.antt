-- ===== src/Cloud/Examples/Concurrent.antt =====
-- Two requests whose handlers overlap.
use wisp_shell.Prelude.{some, List, [], ◌∷◌, text}
use wisp_shell.Cloud.Store.{no_tables}
use wisp_shell.Cloud.Pairing.{StartPairingRequest}
use wisp_shell.Cloud.Server.{pairing_start, fresh}
use wisp_shell.Cloud.Server.Concurrent.{Serving, Move, change, save_one}

abbrev first_start : StartPairingRequest
first_start = record {
  pair_id = text "p1";
  daemon_device_id = text "daemon";
  daemon_public_key = text "key";
  expires_at = 100;
}

abbrev moves : List Move
moves =
    change (pairing_start first_start 1)
    ∷ change (pairing_start (record first_start { pair_id = text "p2" }) 2)
    ∷ save_one
    ∷ save_one
    ∷ []

abbrev serving : Serving
serving = record { app = fresh (some no_tables); unsaved = 0 }
