-- ===== src/Cloud/Http.antt =====
-- The answers of the cloud's handlers: a value, or a status with an error code. All failing
-- branches of the handlers return before they change the state.
use wisp_shell.Prelude.{Result, ok, err}
use wisp_shell.Protocol.ErrorCode.{ErrorCode}
use wisp_shell.Cloud.App.{AppState}

pub data Status : Type 0 where
  bad_request unauthorized forbidden not_found conflict gone : Status

pub record Rejection : Type 0 where
  pub status : Status
  pub error : ErrorCode

abbrev pub rejection : Status → ErrorCode → Rejection
rejection status error = record { status = status; error = error }

-- A handler's answer and the state that it leaves.
abbrev pub Answer : Type 0 → Type 0
Answer A = Result Rejection (A × AppState)

-- The state after a request.
abbrev pub after {ℓ} : {A : Type ℓ} {S E : Type ℓ} → S → Result E (A × S) → S
after s (ok (a, s')) = s'
after s (err e) = s
