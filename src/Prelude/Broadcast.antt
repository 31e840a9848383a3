-- ===== src/Prelude/Broadcast.antt =====
-- `tokio::sync::broadcast`: what a receiver's `recv` answers. A receiver that fell behind by more
-- messages than the channel holds gets `lagged` once, with their number, and then what is left.
use Prim.Native.Nat.{ℕ}

pub data Received {ℓ} (A : Type ℓ) : Type ℓ where
  message : A → Received A
  lagged : ℕ → Received A
  closed : Received A
