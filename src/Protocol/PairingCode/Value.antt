-- ===== src/Protocol/PairingCode/Value.antt =====
-- A pairing code carries its eight random bytes: the 64-bit value reads back from the code.
use wisp_shell.Prelude.{
  ℕ, zero, suc, ◌+◌, ◌*◌, ◌/◌, ◌%◌, ◌^◌, ◌≤◌, ◌<◌, ◌≡◌, refl, ap, ap₂, sym, ◌∙◌, List, [], ◌∷◌,
  length, drop, all, All, Str, ◌==◌, ==_iff, if◌then◌else◌, arith,
}
use native.Mathlib.Nat.{pow-suc}
use wisp_shell.Protocol.PairingCode.{
  alphabet, body_len, alphabet_at, code_chars, compact, u64_from_be_bytes, encode_pairing_code,
}
use wisp_shell.Protocol.PairingCode.Canonical.{
  holds_below, at_holds_below, code_chars-IsBody, compact-format_code,
}

-- The place of a character in the alphabet.
index_in : Str → ℕ → ℕ
index_in [] c = 0
index_in (d ∷ cs) c = if d == c then 0 else suc (index_in cs c)

index_in-alphabet_at : (i : ℕ) → i < 32 → index_in alphabet (alphabet_at alphabet i) ≡ i
index_in-alphabet_at i h = (==_iff _ _).0 (
    at_holds_below (λ j. index_in alphabet (alphabet_at alphabet j) == j) i 32 h
      (unfold holds_below index_in alphabet_at in refl))

-- The number that digits in base 32 stand for, behind the digits read so far.
read_digits : ℕ → Str → ℕ
read_digits acc [] = acc
read_digits acc (c ∷ s) = read_digits (acc * 32 + index_in alphabet c) s

read_digits-code_chars :
    (k value : ℕ) (chars : Str)
    → value < 32 ^ k
    → read_digits 0 (code_chars k value chars) ≡ read_digits value chars
unfolding code_chars read_digits
read_digits-code_chars zero value chars h = ap (λ (v : ℕ). read_digits v chars) (omega arith)
read_digits-code_chars (suc k) value chars h =
    read_digits-code_chars k (value / 32) (alphabet_at alphabet (value % 32) ∷ chars) (ground arith)
    ∙ ap (λ (v : ℕ). read_digits v chars)
        (omega (arith, index_in-alphabet_at (value % 32) (omega arith)))

-- The 64-bit value that a code spells.
pub code_value : Str → ℕ
unfolding read_digits index_in
code_value code = read_digits 0 (drop 4 (compact code))

abbrev pub IsByte : ℕ → Type 0
IsByte b = b < 256

one_byte_more : (acc b p : ℕ) → b < 256 → (acc * 2 ^ 8 + b + 1) * p ≤ (acc + 1) * (p * 256)
one_byte_more acc b p h = grind arith

u64_bound :
    (acc : ℕ) (bytes : List ℕ)
    → All IsByte bytes
    → u64_from_be_bytes acc bytes < (acc + 1) * 256 ^ length bytes
unfolding u64_from_be_bytes
u64_bound acc [] h = omega arith
u64_bound acc (b ∷ bytes) (hb, hs) = simp pow-suc (
    omega
      (arith, one_byte_more acc b (256 ^ length bytes) hb, u64_bound (acc * 2 ^ 8 + b) bytes hs))

-- A generated code spells the value of its bytes.
pub code_value-encode :
    (bytes : List ℕ)
    → All IsByte bytes
    → length bytes ≡ 8
    → code_value (encode_pairing_code bytes) ≡ u64_from_be_bytes 0 bytes
unfolding code_value encode_pairing_code
code_value-encode bytes small long =
    let value = u64_from_be_bytes 0 bytes in
    let (size, good) = code_chars-IsBody body_len value [] (unfold all in refl) in
    rw (compact-format_code (code_chars body_len value []) (omega (arith, size)) good) (
      read_digits-code_chars body_len value []
        (omega (arith, u64_bound 0 bytes small, ap (λ (n : ℕ). 256 ^ n) long)))

u64_injective :
    (acc acc' : ℕ) (xs ys : List ℕ)
    → All IsByte xs
    → All IsByte ys
    → length xs ≡ length ys
    → u64_from_be_bytes acc xs ≡ u64_from_be_bytes acc' ys
    → (acc ≡ acc') × (xs ≡ ys)
unfolding u64_from_be_bytes
u64_injective acc acc' [] [] hx hy l e = (e, refl)
u64_injective acc acc' [] (y ∷ ys) hx hy l e = absurd (omega arith)
u64_injective acc acc' (x ∷ xs) [] hx hy l e = absurd (omega arith)
u64_injective acc acc' (x ∷ xs) (y ∷ ys) hx hy l e =
    let (same, tails) =
      u64_injective (acc * 2 ^ 8 + x) (acc' * 2 ^ 8 + y) xs ys hx.1 hy.1 (omega arith) e in
    (
      omega (arith, same, hx.0, hy.0),
      ap₂ (λ (a : ℕ) (as' : List ℕ). a ∷ as') (omega (arith, same, hx.0, hy.0)) tails,
    )

-- Two strings of eight bytes with the same code are equal.
pub encode_injective :
    (xs ys : List ℕ)
    → All IsByte xs
    → All IsByte ys
    → length xs ≡ 8
    → length ys ≡ 8
    → encode_pairing_code xs ≡ encode_pairing_code ys
    → xs ≡ ys
encode_injective xs ys hx hy lx ly e =
    (u64_injective 0 0 xs ys hx hy (lx ∙ sym ly)
      (sym (code_value-encode xs hx lx) ∙ ap code_value e ∙ code_value-encode ys hy ly)).1
