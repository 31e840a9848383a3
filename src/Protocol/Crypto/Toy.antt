-- ===== src/Protocol/Crypto/Toy.antt =====
-- Primitives that meet the laws, for the concrete runs: base64 is padding to base64's length, and
-- a signature repeats the key's first bytes. They show that the laws can be met, and no more.
use wisp_shell.Prelude.{
  ℕ, zero, suc, ◌+◌, ◌-◌, ◌*◌, ◌/◌, ◌≡◌, refl, ap, ◌∙◌, true, some, List, [], ◌∷◌, ◌++◌, length,
  take, take-append, length-append, Str, str_eq, str_eq_refl, arith,
}
use wisp_shell.Protocol.Crypto.{Primitives, IsLawful}

replicate : ℕ → List ℕ
replicate zero = []
replicate (suc n) = 0 ∷ replicate n

length-replicate : (n : ℕ) → length (replicate n) ≡ n
unfolding replicate
length-replicate zero = refl
length-replicate (suc n) = ap suc (length-replicate n)

pad : List ℕ → List ℕ
unfolding replicate
pad bytes = bytes ++ replicate ((4 * length bytes + 2) / 3 - length bytes)

unpad : Str → List ℕ
unpad s = take (3 * length s / 4) s

-- The first `n` bytes, filled up with zeros.
first : ℕ → List ℕ → List ℕ
first zero bytes = []
first (suc n) [] = 0 ∷ first n []
first (suc n) (b ∷ bytes) = b ∷ first n bytes

length-first : (n : ℕ) (bytes : List ℕ) → length (first n bytes) ≡ n
unfolding first
length-first zero bytes = refl
length-first (suc n) [] = ap suc (length-first n [])
length-first (suc n) (b ∷ bytes) = ap suc (length-first n bytes)

length-pad : (bytes : List ℕ) → length (pad bytes) ≡ (4 * length bytes + 2) / 3
unfolding pad
length-pad bytes = omega (
  arith,
  length-append bytes (replicate ((4 * length bytes + 2) / 3 - length bytes)),
  length-replicate ((4 * length bytes + 2) / 3 - length bytes),
)

take-pad : (bytes : List ℕ) → take (length bytes) (pad bytes) ≡ bytes
unfolding pad
take-pad bytes = take-append bytes _

unpad-pad : (bytes : List ℕ) → unpad (pad bytes) ≡ bytes
unfolding unpad
unpad-pad bytes =
    ap (λ (n : ℕ). take n (pad bytes)) (omega (arith, length-pad bytes)) ∙ take-pad bytes

unfoldable pub toy : Primitives
unfolding pad unpad first replicate str_eq
toy = record {
  base64 = pad;
  base64_decode = λ s. some (unpad s);
  sha256 = first 32;
  hmac_sha256 = λ key payload. first 32 (key ++ payload);
  verifying_key = first 32;
  sign = λ key payload. first 32 key ++ first 32 payload;
  is_verifying_key = λ key. true;
  verify = λ key payload signature. str_eq (key ++ first 32 payload) signature;
}

pub toy-IsLawful : IsLawful toy
unfolding toy
toy-IsLawful = record {
  decode-base64 = λ bytes. ap some (unpad-pad bytes);
  length-base64 = length-pad;
  length-sha256 = length-first 32;
  length-verifying_key = length-first 32;
  length-sign = λ key payload. omega (
    arith,
    length-append (first 32 key) (first 32 payload),
    length-first 32 key,
    length-first 32 payload,
  );
  verifying_key_valid = λ key. refl;
  verify-sign = λ key payload. str_eq_refl (first 32 key ++ first 32 payload);
}
