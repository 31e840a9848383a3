-- ===== src/Prelude/Bits.antt =====
-- `a | (b << k)` where the bits of `a` lie below bit `k`, and recursion on `<` for shift loops.
use Prim.Native.Nat.{
  ℕ, zero, suc, ◌+◌, ◌*◌, ◌/◌, ◌^◌, ◌≤◌, ◌<◌, max, digits, bit_or, bit_or-bitwise,
}
use mathlib.Core.Path.{◌≡◌}
use mathlib.Core.WellFounded.{Acc, WellFounded}
use native.Mathlib.Nat.{pow-suc}
use native.Mathlib.Omega.{arith}

abbrev or_digits : ℕ → ℕ → ℕ → ℕ
or_digits fuel a b = digits (λ y. y) max fuel a b

shift_suc : (b k : ℕ) → b * 2 ^ suc k ≡ b * 2 ^ k * 2
shift_suc b k = simp pow-suc (omega arith)

mul-div_two : (n : ℕ) → n * 2 / 2 ≡ n
mul-div_two n = omega arith

or_digits_disjoint :
    (k fuel a b : ℕ) → a ≤ fuel → a < 2 ^ k → or_digits fuel a (b * 2 ^ k) ≡ a + b * 2 ^ k
or_digits_disjoint k zero zero b enough fits = omega arith
or_digits_disjoint k (suc fuel) zero b enough fits = omega arith
or_digits_disjoint k zero (suc a) b enough fits = absurd (omega arith)
or_digits_disjoint zero (suc fuel) (suc a) b enough fits = absurd (omega arith)
or_digits_disjoint (suc k) (suc fuel) (suc a) b enough fits = rw (shift_suc b k) (
    rw (mul-div_two (b * 2 ^ k)) (
      omega (
        arith,
        or_digits_disjoint k fuel (suc a / 2) b (omega arith) (omega (arith, shift_suc 1 k)),
      )))

pub bit_or_disjoint : (k a b : ℕ) → a < 2 ^ k → bit_or a (b * 2 ^ k) ≡ a + b * 2 ^ k
bit_or_disjoint k a b fits = simp bit_or-bitwise (or_digits_disjoint k a a b (omega arith) fits)

Acc_under : (bound n : ℕ) → n < bound → Acc ◌<◌ n
Acc_under zero n h = absurd (omega arith)
Acc_under (suc bound) n h = Acc.intro n (λ m hm. Acc_under bound m (omega arith))

unfoldable pub lt_wf : WellFounded ◌<◌
unfolding Acc_under
lt_wf = record { apply = λ n. Acc_under (suc n) n (omega arith) }
