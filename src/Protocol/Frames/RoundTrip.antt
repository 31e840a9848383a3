-- ===== src/Protocol/Frames/RoundTrip.antt =====
-- The length decoder of short frames against the encoder, and on arbitrary bytes.
use mathlib.Core.WellFounded.{Acc}
use wisp_shell.Prelude.{
  ℕ, zero, suc, ◌+◌, ◌*◌, ◌/◌, ◌%◌, ◌^◌, ◌≤◌, ◌<◌, ◌≡◌, List, [], ◌∷◌, ◌++◌, length, ok, arith,
}
use wisp_shell.Prelude.Bits.{lt_wf}
use wisp_shell.Protocol.Messages.{max_binary_payload_len}
use wisp_shell.Protocol.Frames.{
  length_bytes, add_bits, decode_short_loop, decode_short_binary_payload_len,
}
use wisp_shell.Protocol.Frames.Length.{
  set_top_bit, split_group, group_fits, decode_last, decode_inner,
}

decode_short_loop-length_bytes :
    (k i n value : ℕ) (w : Acc ◌<◌ n) (rest : List ℕ)
    → i + k ≡ 3
    → n < 128 ^ suc k
    → value < 2 ^ (i * 7)
    → value + n * 2 ^ (i * 7) ≤ max_binary_payload_len
    → decode_short_loop i value (length_bytes n w ++ rest)
      ≡ ok (value + n * 2 ^ (i * 7), i + length (length_bytes n w))
unfolding length_bytes
decode_short_loop-length_bytes zero i n value (Acc.intro _ smaller) rest hi hn hv fits =
    grind (arith, decode_last n i value rest)
decode_short_loop-length_bytes (suc k) i n value (Acc.intro _ smaller) rest hi hn hv fits = grind (
  arith,
  set_top_bit n,
  decode_last n i value rest,
  split_group n i,
  group_fits value (n % 2 ^ 7) i,
  λ (w : Acc ◌<◌ (n / 2 ^ 7)).
      decode_inner (n % 2 ^ 7) i value (length_bytes (n / 2 ^ 7) w ++ rest),
  λ (w : Acc ◌<◌ (n / 2 ^ 7)).
      decode_short_loop-length_bytes k (i + 1) (n / 2 ^ 7) (value + n % 2 ^ 7 * 2 ^ (i * 7)) w rest,
)

-- The decoder reads back every payload length up to the limit as the encoder writes it, and says
-- how many bytes it took, whatever follows them.
pub decode-length_bytes :
    (n : ℕ) (rest : List ℕ)
    → n ≤ max_binary_payload_len
    → decode_short_binary_payload_len (length_bytes n (lt_wf.apply n) ++ rest)
      ≡ ok (n, length (length_bytes n (lt_wf.apply n)))
unfolding decode_short_binary_payload_len
decode-length_bytes n rest h =
    grind (arith, decode_short_loop-length_bytes 3 0 n 0 (lt_wf.apply n) rest)

pub decode_short_loop_bounds :
    (i value : ℕ) (bytes : List ℕ) {v n : ℕ}
    → decode_short_loop i value bytes ≡ ok (v, n)
    → (v ≤ max_binary_payload_len) × (i < n) × (n ≤ 4) × (n ≤ i + length bytes)
unfolding decode_short_loop
decode_short_loop_bounds i value [] e = cc
decode_short_loop_bounds i value (byte ∷ bytes) {v} {n} e =
    ground (arith, decode_short_loop_bounds (i + 1) (add_bits value byte i) bytes {v = v} {n = n})

-- A length that is accepted from any bytes is within the limit and took one to four of the bytes.
pub decode_short_bounds :
    (bytes : List ℕ) {v n : ℕ}
    → decode_short_binary_payload_len bytes ≡ ok (v, n)
    → (v ≤ max_binary_payload_len) × (1 ≤ n) × (n ≤ 4) × (n ≤ length bytes)
unfolding decode_short_binary_payload_len
decode_short_bounds bytes {v} {n} e =
    ground (arith, decode_short_loop_bounds 0 0 bytes {v = v} {n = n})
