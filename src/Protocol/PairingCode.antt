-- ===== src/Protocol/PairingCode.antt =====
-- crates/wispshell-protocol/src/pairing_code.rs: the code that a user types. A code is a string;
-- all the characters that matter are ASCII, so bytes and characters are filtered alike.
pub mod Canonical
pub mod Value
use wisp_shell.Prelude.{
  ℕ, zero, suc, ◌+◌, ◌-◌, ◌*◌, ◌/◌, ◌%◌, ◌^◌, Bool, true, false, not, ◌&&◌, ◌||◌, Option, none,
  some, List, [], ◌∷◌, ◌++◌, map, length, take, drop, slice, filter, any, all, Str, text, Result,
  ok, ensure, ok_or, ◌>>=◌, ◌>>◌, leb, ◌==◌, if◌then◌else◌,
}
use wisp_shell.Protocol.Failure.{Failure, code_prefix, code_length, code_characters}

abbrev pub alphabet : Str
alphabet = text "23456789ABCDEFGHJKLMNPQRSTUVWXYZ"

abbrev pub body_len : ℕ
body_len = 13

-- `ALPHABET[i]`; the callers pass an index below 32.
unfoldable pub alphabet_at : Str → ℕ → ℕ
alphabet_at [] i = 0
alphabet_at (c ∷ cs) zero = c
alphabet_at (c ∷ cs) (suc i) = alphabet_at cs i

-- `u64::from_be_bytes`
unfoldable pub u64_from_be_bytes : ℕ → List ℕ → ℕ
u64_from_be_bytes acc [] = acc
u64_from_be_bytes acc (b ∷ bytes) = u64_from_be_bytes (acc * 2 ^ 8 + b) bytes

-- The loop over `idx`, last index first; `chars` is what is filled in already.
unfoldable pub code_chars : ℕ → ℕ → Str → Str
code_chars zero value chars = chars
code_chars (suc idx) value chars =
    code_chars idx (value / 32) (alphabet_at alphabet (value % 32) ∷ chars)

-- `format!("WISP-{}-{}-{}-{}", ..)` over the four slices of a body.
unfoldable pub format_code : Str → Str
format_code raw =
    text "WISP-"
    ++ (slice 0 3 raw
        ++ (text "-"
            ++ (slice 3 6 raw ++ (text "-" ++ (slice 6 9 raw ++ (text "-" ++ slice 9 13 raw))))))

unfoldable pub encode_pairing_code : List ℕ → Str
encode_pairing_code bytes = format_code (code_chars body_len (u64_from_be_bytes 0 bytes) [])

unfoldable pub is_ascii_whitespace : ℕ → Bool
is_ascii_whitespace c = c == 32 || c == 9 || c == 10 || c == 12 || c == 13

unfoldable pub to_ascii_uppercase : ℕ → ℕ
to_ascii_uppercase c = if leb b'a' c && leb c b'z' then c - 32 else c

unfoldable pub is_kept : ℕ → Bool
unfolding is_ascii_whitespace
is_kept c = not (is_ascii_whitespace c) && not (c == b'-')

unfoldable pub compact : Str → Str
unfolding is_kept to_ascii_uppercase filter
compact code = map to_ascii_uppercase (filter is_kept code)

unfoldable pub strip_prefix : Str → Str → Option Str
strip_prefix [] s = some s
strip_prefix (p ∷ ps) [] = none
strip_prefix (p ∷ ps) (c ∷ s) = let rest = strip_prefix ps s in if c == p then rest else none

-- `ALPHABET.contains(&b)`
unfoldable pub contains : Str → ℕ → Bool
unfolding any
contains chars b = any (λ c. c == b) chars

unfoldable pub normalize_pairing_code : Str → Result Failure Str
unfolding strip_prefix
normalize_pairing_code code = do
  body ← ok_or (strip_prefix (text "WISP") (compact code)) code_prefix
  ensure (length body == body_len) code_length
  ensure (all (contains alphabet) body) code_characters
  ok (format_code body)
