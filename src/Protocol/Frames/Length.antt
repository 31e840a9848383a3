-- ===== src/Protocol/Frames/Length.antt =====
-- The length of a short frame: seven bits a byte, at most four bytes on the way in.
use Prim.Native.Nat.{bit_or}
use mathlib.Core.WellFounded.{Acc}
use wisp_shell.Prelude.{
  ℕ, zero, suc, ◌+◌, ◌*◌, ◌/◌, ◌%◌, ◌^◌, ◌≤◌, ◌<◌, ◌≡◌, ap, List, ◌∷◌, length, ok, arith,
}
use native.Mathlib.Nat.{div-add-mod}
use native.Mathlib.Numerals.{towards_suc}
use wisp_shell.Prelude.Bits.{bit_or_disjoint, lt_wf}
use wisp_shell.Protocol.Messages.{max_binary_payload_len}
use wisp_shell.Protocol.Frames.{
  length_bytes, add_bits, decode_short_loop, varint_len_loop, varint_len,
}

-- `byte |= 0x80` on seven bits.
pub set_top_bit : (n : ℕ) → bit_or (n % 2 ^ 7 % 2 ^ 8) 0x80 ≡ n % 2 ^ 7 + 128
set_top_bit n = omega (arith, bit_or_disjoint 7 (n % 2 ^ 7 % 2 ^ 8) 1 (omega arith))

varint_len_loop_lem :
    (bound n len : ℕ) (w : Acc ◌<◌ n)
    → n < bound
    → varint_len_loop n len w + 1 ≡ len + length (length_bytes n w)
unfolding varint_len_loop length_bytes
varint_len_loop_lem zero n len w h = absurd (omega arith)
varint_len_loop_lem (suc bound) n len (Acc.intro _ smaller) h = grind (
  arith,
  λ (w : Acc ◌<◌ (n / 2 ^ 7)).
      λ (p : n / 2 ^ 7 < bound). varint_len_loop_lem bound (n / 2 ^ 7) (len + 1) w p,
)

-- `varint_len` is the number of bytes that the encoder of the length writes.
pub varint_len-length : (n : ℕ) → varint_len n ≡ length (length_bytes n (lt_wf.apply n))
unfolding varint_len
varint_len-length n = omega (arith, varint_len_loop_lem (suc n) n 1 (lt_wf.apply n))

shift_seven : (i : ℕ) → 2 ^ ((i + 1) * 7) ≡ 128 * 2 ^ (i * 7)
shift_seven i = rw (seven_more i) (simp towards_suc (omega arith))
  where
    seven_more : (i : ℕ) → (i + 1) * 7 ≡ i * 7 + 7
    seven_more i = omega arith

-- The lowest seven bits of `n` and the rest, both shifted to round `i`.
pub split_group :
    (n i : ℕ) → n * 2 ^ (i * 7) ≡ n % 2 ^ 7 * 2 ^ (i * 7) + n / 2 ^ 7 * 2 ^ ((i + 1) * 7)
split_group n i = omega (
  arith,
  ap (λ (t : ℕ). t * 2 ^ (i * 7)) (div-add-mod n 128),
  ap (λ (t : ℕ). n / 128 * t) (shift_seven i),
)

-- A group of seven bits stays below the next round's first bit.
pub group_fits :
    (value g i : ℕ) → value < 2 ^ (i * 7) → g < 128 → value + g * 2 ^ (i * 7) < 2 ^ ((i + 1) * 7)
group_fits value g i hv hg = rw (shift_seven i) (grind arith)

-- Where the bits do not overlap, `|` is addition.
pub add_bits_lem :
    (value byte i : ℕ)
    → value < 2 ^ (i * 7)
    → add_bits value byte i ≡ value + byte % 2 ^ 7 * 2 ^ (i * 7)
add_bits_lem value byte i h = bit_or_disjoint (i * 7) value (byte % 2 ^ 7) h

pub decode_last :
    (byte i value : ℕ) (rest : List ℕ)
    → byte < 128
    → i < 4
    → value < 2 ^ (i * 7)
    → value + byte * 2 ^ (i * 7) ≤ max_binary_payload_len
    → decode_short_loop i value (byte ∷ rest) ≡ ok (value + byte * 2 ^ (i * 7), i + 1)
unfolding decode_short_loop
decode_last byte i value rest hb hi hv fits =
    let low : byte % 2 ^ 7 ≡ byte = omega arith in
    rw (add_bits_lem value byte i hv, low) (ground arith)

pub decode_inner :
    (g i value : ℕ) (rest : List ℕ)
    → g < 128
    → i < 4
    → value < 2 ^ (i * 7)
    → decode_short_loop i value ((g + 128) ∷ rest)
      ≡ decode_short_loop (i + 1) (value + g * 2 ^ (i * 7)) rest
unfolding decode_short_loop
decode_inner g i value rest hg hi hv =
    let low : (g + 128) % 2 ^ 7 ≡ g = omega arith in
    rw (add_bits_lem value (g + 128) i hv, low) (ground arith)
