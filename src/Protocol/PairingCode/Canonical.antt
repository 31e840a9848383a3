-- ===== src/Protocol/PairingCode/Canonical.antt =====
-- What `normalize_pairing_code` accepts, and that its results and the generated codes are the
-- canonical spelling.
use wisp_shell.Prelude.{
  ℕ, zero, suc, ◌≡◌, refl, sym, ap, ◌∙◌, Bool, true, ◌&&◌, Option, none, some, List, [], ◌∷◌, ◌++◌,
  map, length, take, drop, slice, filter, all, any, Str, text, ok, ◌==◌, if◌then◌else◌, arith,
  all-take, all-drop, take-append-drop, take_all, drop-drop, length-drop, ◌<◌, ◌+◌, ◌/◌, ◌%◌, leb,
}
use wisp_shell.Protocol.PairingCode.{
  alphabet, body_len, contains, compact, is_kept, to_ascii_uppercase, is_ascii_whitespace,
  strip_prefix, format_code, normalize_pairing_code, encode_pairing_code, code_chars, alphabet_at,
  u64_from_be_bytes,
}

-- A body: thirteen characters of the alphabet.
abbrev pub IsBody : Str → Type 0
IsBody body = (length body ≡ body_len) × (all (contains alphabet) body ≡ true)

-- The test holds at each index below the number.
unfoldable pub holds_below : (ℕ → Bool) → ℕ → Bool
holds_below test zero = true
holds_below test (suc last) = holds_below test last && test last

pub at_holds_below :
    (test : ℕ → Bool) (i size : ℕ) → i < size → holds_below test size ≡ true → test i ≡ true
unfolding holds_below
at_holds_below test i zero lt every = absurd (omega (arith, lt))
at_holds_below test i (suc last) lt every = grind (arith, lt, every, at_holds_below test i last)

any-all :
    (p : ℕ → Bool) (cs : Str) (c : ℕ) → any (λ d. d == c) cs ≡ true → all p cs ≡ true → p c ≡ true
unfolding any all
any-all p [] c h k = cc
any-all p (d ∷ cs) c h k = ground (arith, any-all p cs c)

-- A character that `compact` neither drops nor changes.
is_plain : ℕ → Bool
is_plain c = is_kept c && (to_ascii_uppercase c == c)

contains-is_plain : (c : ℕ) → contains alphabet c ≡ true → is_plain c ≡ true
unfolding contains is_plain is_kept to_ascii_uppercase is_ascii_whitespace all
contains-is_plain c h = any-all is_plain alphabet c h refl

compact_plain : (s : Str) → all (contains alphabet) s ≡ true → compact s ≡ s
unfolding compact filter all is_plain
compact_plain [] h = refl
compact_plain (c ∷ s) h = ground (arith, contains-is_plain c, compact_plain s)

pub compact-append : (s t : Str) → compact (s ++ t) ≡ compact s ++ compact t
unfolding compact filter
compact-append [] t = refl
compact-append (c ∷ s) t = ground (arith, compact-append s t)

compact_dash : compact (text "-") ≡ []
unfolding compact filter is_kept is_ascii_whitespace to_ascii_uppercase
compact_dash = refl

compact_wisp : compact (text "WISP-") ≡ text "WISP"
unfolding compact filter is_kept is_ascii_whitespace to_ascii_uppercase
compact_wisp = refl

module _ (body : Str) (long : length body ≡ body_len) where
  slices-append : slice 0 3 body ++ (slice 3 6 body ++ (slice 6 9 body ++ slice 9 13 body)) ≡ body
  slices-append =
      ap (λ t. take 3 body ++ (take 3 (drop 3 body) ++ (take 3 (drop 6 body) ++ t)))
        (take_all 4 (drop 9 body) (omega (arith, length-drop 9 body)))
      ∙ ap (λ t. take 3 body ++ (take 3 (drop 3 body) ++ (take 3 (drop 6 body) ++ t)))
          (sym (drop-drop 3 6 body))
      ∙ ap (λ t. take 3 body ++ (take 3 (drop 3 body) ++ t)) (take-append-drop 3 (drop 6 body))
      ∙ ap (λ t. take 3 body ++ (take 3 (drop 3 body) ++ t)) (sym (drop-drop 3 3 body))
      ∙ ap (λ t. take 3 body ++ t) (take-append-drop 3 (drop 3 body))
      ∙ take-append-drop 3 body

  module _ (good : all (contains alphabet) body ≡ true) where
    compact-slice : (i j : ℕ) → compact (slice i j body) ≡ slice i j body
    compact-slice i j =
        compact_plain (slice i j body)
          (all-take (contains alphabet) _ (drop i body) (all-drop (contains alphabet) i body good))

    -- Taking the dashes out of a formatted body gives the body back, behind its prefix.
    pub compact-format_code : compact (format_code body) ≡ text "WISP" ++ body
    unfolding format_code
    compact-format_code =
        simp (compact-append, compact_wisp, compact_dash, compact-slice)
          (ap (λ t. text "WISP" ++ t) slices-append)

-- A formatted body is its own normal form.
pub normalize-format_code :
    (body : Str) → IsBody body → normalize_pairing_code (format_code body) ≡ ok (format_code body)
unfolding normalize_pairing_code strip_prefix
normalize-format_code body (long, good) = rw (compact-format_code body long good) (ground arith)

pub normalize-IsBody :
    (code : Str) {n : Str}
    → normalize_pairing_code code ≡ ok n
    → (body : Str) × IsBody body × (n ≡ format_code body)
unfolding normalize_pairing_code
normalize-IsBody code {n} e = accepted (strip_prefix (text "WISP") (compact code)) refl
  where
    accepted :
        (o : Option Str)
        → strip_prefix (text "WISP") (compact code) ≡ o
        → (body : Str) × IsBody body × (n ≡ format_code body)
    accepted none p = absurd (ground arith)
    accepted (some body) p = (body, ground arith, ground arith)

-- The normal form of a code is accepted, and is its own normal form.
pub normalize_idempotent :
    (code : Str) {n : Str} → normalize_pairing_code code ≡ ok n → normalize_pairing_code n ≡ ok n
normalize_idempotent code e =
    let (body, good, p) = normalize-IsBody code e in rw p (normalize-format_code body good)

-- Typing a code in lower case changes nothing; nor does leaving out dashes and blanks.
pub to_ascii_lowercase : ℕ → ℕ
to_ascii_lowercase c = if leb b'A' c && leb c b'Z' then c + 32 else c

compact_lower : (code : Str) → compact (map to_ascii_lowercase code) ≡ compact code
unfolding compact filter is_kept is_ascii_whitespace to_ascii_uppercase to_ascii_lowercase
compact_lower [] = refl
compact_lower (c ∷ code) = ground (arith, compact_lower code)

compact-filter : (code : Str) → compact (filter is_kept code) ≡ compact code
unfolding compact filter
compact-filter [] = refl
compact-filter (c ∷ code) = ground (arith, compact-filter code)

pub normalize_loose :
    (code : Str)
    → (normalize_pairing_code (map to_ascii_lowercase code) ≡ normalize_pairing_code code)
      × (normalize_pairing_code (filter is_kept code) ≡ normalize_pairing_code code)
unfolding normalize_pairing_code
normalize_loose code = (rw compact_lower, rw compact-filter)

alphabet_at-contains : (i : ℕ) → i < 32 → contains alphabet (alphabet_at alphabet i) ≡ true
alphabet_at-contains i h =
    at_holds_below (λ j. contains alphabet (alphabet_at alphabet j)) i 32 h
      (unfold holds_below contains any alphabet_at in refl)

pub code_chars-IsBody :
    (k value : ℕ) (chars : Str)
    → all (contains alphabet) chars ≡ true
    → (length (code_chars k value chars) ≡ k + length chars)
      × (all (contains alphabet) (code_chars k value chars) ≡ true)
unfolding code_chars all
code_chars-IsBody zero value chars h = (omega arith, h)
code_chars-IsBody (suc k) value chars h =
    let (long, good) =
      code_chars-IsBody k (value / 32) (alphabet_at alphabet (value % 32) ∷ chars)
        (ground (arith, alphabet_at-contains (value % 32))) in
    (omega (arith, long), good)

-- The code that is made of any bytes is accepted, and is its own normal form.
pub normalize-encode :
    (bytes : List ℕ)
    → normalize_pairing_code (encode_pairing_code bytes) ≡ ok (encode_pairing_code bytes)
unfolding encode_pairing_code
normalize-encode bytes =
    let (long, good) =
      code_chars-IsBody body_len (u64_from_be_bytes 0 bytes) [] (unfold all in refl) in
    normalize-format_code _ (omega (arith, long), good)
