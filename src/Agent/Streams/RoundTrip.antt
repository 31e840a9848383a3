-- ===== src/Agent/Streams/RoundTrip.antt =====
-- What the protocol's encoders write, the daemon's reader reads back.
use wisp_shell.Prelude.{
  ℕ, zero, suc, ◌+◌, ◌-◌, ◌≤◌, ◌<◌, ◌≡◌, refl, sym, ap, ◌∙◌, none, some, List, [], ◌∷◌, ◌++◌,
  length, drop, Str, true, ok, arith, All, drop-append, take-append, append_assoc, length-append,
}
use wisp_shell.Prelude.Bits.{lt_wf}
use wisp_shell.Protocol.Messages.{
  ClientToAgent, max_binary_payload_len, max_binary_session_id_len, short_binary_frame_magic,
}
use wisp_shell.Protocol.Frames.{
  decode_short_loop, length_bytes, encode_short_binary_frame, encode_binary_frame, add_bits,
  decode_short_binary_payload_len,
}
use wisp_shell.Protocol.Frames.RoundTrip.{decode-length_bytes, decode_short_loop_bounds}
use wisp_shell.Protocol.Frames.Header.{
  frame_bytes, encode_binary_frame_lem, decode_binary_header_fits,
}
use wisp_shell.Agent.Streams.{
  Json, json, binary, short_binary, read_len_loop, read_short_binary_payload_len, read_exact,
  read_client_stream_frame, read_binary, read_short_binary, read_json, read_line, strip_suffix,
  trim_line_end,
}

drop_later :
    (used index x : ℕ) (xs : List ℕ)
    → index < used
    → drop (used - index) (x ∷ xs) ≡ drop (used - (index + 1)) xs
drop_later used index x xs h =
    let e : used - index ≡ suc (used - (index + 1)) = omega arith in rw e refl

-- The reader of a length against the decoder of a slice: the same value, and what it did not take.
read_len_loop-decode :
    (left index value : ℕ) (bytes : List ℕ) (n used : ℕ)
    → left + index ≡ 4
    → decode_short_loop index value bytes ≡ ok (n, used)
    → read_len_loop left index value bytes ≡ ok (n, drop (used - index) bytes)
unfolding read_len_loop decode_short_loop
read_len_loop-decode zero index value [] n used h e = cc e
read_len_loop-decode zero index value (byte ∷ bytes) n used h e = absurd (ground (arith, e))
read_len_loop-decode (suc left) index value [] n used h e = absurd (ground (arith, e))
read_len_loop-decode (suc left) index value (byte ∷ bytes) n used h e = grind (
  arith,
  drop_later used index byte bytes,
  decode_short_loop_bounds (index + 1) (add_bits value byte index) bytes {v = n} {n = used},
  read_len_loop-decode left (index + 1) (add_bits value byte index) bytes n used,
)

pub read_exact-append : (xs ys : List ℕ) → read_exact (length xs) (xs ++ ys) ≡ ok (xs, ys)
unfolding read_exact
read_exact-append xs ys = ground (arith, length-append xs ys, take-append xs ys, drop-append xs ys)

pub read_short-length_bytes :
    (n : ℕ) (rest : List ℕ)
    → n ≤ max_binary_payload_len
    → read_short_binary_payload_len (length_bytes n (lt_wf.apply n) ++ rest) ≡ ok (n, rest)
unfolding read_short_binary_payload_len decode_short_binary_payload_len
read_short-length_bytes n rest h =
    let bytes = length_bytes n (lt_wf.apply n) in
    read_len_loop-decode 4 0 0 (bytes ++ rest) n (length bytes) (omega arith)
      (decode-length_bytes n rest h)
    ∙ ap (λ (xs : List ℕ). ok (n, xs)) (drop_all_of bytes rest)
  where
    drop_all_of : (xs ys : List ℕ) → drop (length xs - 0) (xs ++ ys) ≡ ys
    drop_all_of xs ys = let e : length xs - 0 ≡ length xs = omega arith in rw e (drop-append xs ys)

-- The daemon reads back each short frame that is written, and leaves what follows it.
pub read-encode_short_binary_frame :
    (j : Json) (payload rest frame : List ℕ)
    → encode_short_binary_frame payload ≡ ok frame
    → read_client_stream_frame j (frame ++ rest)
      ≡ ok (some (short_binary (record { payload = payload }), rest))
unfolding read_client_stream_frame read_short_binary read_short_binary_payload_len
    encode_short_binary_frame
read-encode_short_binary_frame j payload rest frame e =
    let n = length payload in
    let bytes = length_bytes n (lt_wf.apply n) in
    let fits : n ≤ max_binary_payload_len = ground (arith, e) in
    let whole : frame ≡ short_binary_frame_magic ∷ (bytes ++ payload) = ground (arith, e) in
    let long = read_short-length_bytes n (payload ++ rest) fits in
    rw (whole, append_assoc, long, read_exact-append payload rest) refl

read_frame_bytes :
    (j : Json) (kind : ℕ) (session_id : Str) (payload rest : List ℕ)
    → j.is_utf8 session_id ≡ true
    → length session_id ≤ max_binary_session_id_len
    → length payload ≤ max_binary_payload_len
    → read_client_stream_frame j (frame_bytes kind session_id payload ++ rest)
      ≡ ok
          (some (binary (record { kind = kind; session_id = session_id; payload = payload }), rest))
unfolding read_client_stream_frame read_binary
read_frame_bytes j kind session_id payload rest u short fits =
    rw
      (
        decode_binary_header_fits kind (length session_id) (length payload) short fits,
        append_assoc,
        read_exact-append session_id (payload ++ rest),
        u,
        read_exact-append payload rest,
      )
      refl

-- The daemon reads back each long frame that is written, its session id being valid UTF-8, and
-- leaves what follows it.
pub read-encode_binary_frame :
    (j : Json) (kind : ℕ) (session_id : Str) (payload rest frame : List ℕ)
    → j.is_utf8 session_id ≡ true
    → encode_binary_frame kind session_id payload ≡ ok frame
    → read_client_stream_frame j (frame ++ rest)
      ≡ ok
          (some (binary (record { kind = kind; session_id = session_id; payload = payload }), rest))
read-encode_binary_frame j kind session_id payload rest frame u e =
    let q = encode_binary_frame_lem kind session_id payload in
    let short : length session_id ≤ max_binary_session_id_len = ground (arith, e, q) in
    let fits : length payload ≤ max_binary_payload_len = ground (arith, e, q) in
    let whole : frame ≡ frame_bytes kind session_id payload = ground (arith, e, q) in
    rw whole (read_frame_bytes j kind session_id payload rest u short fits)

-- No byte of the line is a control character, which JSON's strings escape.
abbrev pub IsLine : List ℕ → Type 0
IsLine line = All (λ (b : ℕ). 32 ≤ b) line

pub read_line-append :
    (line rest : List ℕ) → IsLine line → read_line (line ++ 10 ∷ rest) ≡ (line ++ 10 ∷ [], rest)
unfolding read_line
read_line-append [] rest h = refl
read_line-append (b ∷ line) rest h = ground (arith, h.0, read_line-append line rest h.1)

strip_suffix-append : (b : ℕ) (line : List ℕ) → strip_suffix b (line ++ b ∷ []) ≡ some line
unfolding strip_suffix
strip_suffix-append b [] = ground arith
strip_suffix-append b (x ∷ []) = ground arith
strip_suffix-append b (x ∷ (y ∷ ys)) = rw (strip_suffix-append b (y ∷ ys)) refl

strip_suffix-none : (line : List ℕ) → IsLine line → strip_suffix 13 line ≡ none
unfolding strip_suffix
strip_suffix-none [] h = refl
strip_suffix-none (x ∷ []) h = ground (arith, h.0)
strip_suffix-none (x ∷ (y ∷ ys)) h = rw (strip_suffix-none (y ∷ ys) h.1) refl

pub trim_line_end-append : (line : List ℕ) → IsLine line → trim_line_end (line ++ 10 ∷ []) ≡ line
unfolding trim_line_end
trim_line_end-append line h =
    rw (trim_line_end, strip_suffix-append 10 line, strip_suffix-none line h) refl

-- The daemon reads a message back from its JSON line and leaves what follows, when the JSON is read
-- back, has no control characters and begins with a brace.
pub read-client_to_vec :
    (j : Json) (message : ClientToAgent) (line rest : List ℕ)
    → j.client_to_vec message ≡ 123 ∷ line
    → IsLine line
    → j.client_from_slice (j.client_to_vec message) ≡ some message
    → read_client_stream_frame j (j.client_to_vec message ++ 10 ∷ rest)
      ≡ ok (some (json message, rest))
unfolding read_client_stream_frame read_json
read-client_to_vec j message line rest e h back =
    let trimmed : trim_line_end (123 ∷ (line ++ 10 ∷ [])) ≡ 123 ∷ line =
      trim_line_end-append (123 ∷ line) (omega arith, h) in
    let same : j.client_from_slice (123 ∷ line) ≡ some message =
      ap j.client_from_slice (sym e) ∙ back in
    rw (e, read_line-append line rest h, trimmed, same) refl
