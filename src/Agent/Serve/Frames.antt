-- ===== src/Agent/Serve/Frames.antt =====
-- A frame that was read has taken at least one byte (components/agent/src/transport_stream.rs).
use wisp_shell.Prelude.{
  ℕ, zero, suc, ◌+◌, ◌<◌, ◌≤◌, ◌≡◌, refl, some, List, [], ◌∷◌, length, drop, ok, err, Result, arith,
}
use wisp_shell.Protocol.Failure.{Failure}
use wisp_shell.Protocol.Messages.{binary_frame_magic}
use wisp_shell.Protocol.Frames.{add_bits, decode_binary_header}
use wisp_shell.Agent.Streams.{
  Json, ClientStreamFrame, read_exact, read_len_loop, read_short_binary_payload_len, read_line,
  read_binary, read_short_binary, read_json, read_client_stream_frame,
}

length-drop_bound : (n : ℕ) (bytes : List ℕ) → length (drop n bytes) ≤ length bytes
length-drop_bound zero bytes = omega arith
length-drop_bound (suc n) [] = omega arith
length-drop_bound (suc n) (b ∷ bytes) = omega (arith, length-drop_bound n bytes)

read_exact-shorter :
    (n : ℕ) (bytes taken rest : List ℕ)
    → read_exact n bytes ≡ ok (taken, rest)
    → length rest ≤ length bytes
unfolding read_exact
read_exact-shorter n bytes taken rest e = ground (arith, e, length-drop_bound n bytes)

read_len_loop-shorter :
    (left index value : ℕ) (bytes : List ℕ) (n : ℕ) (rest : List ℕ)
    → read_len_loop left index value bytes ≡ ok (n, rest)
    → length rest ≤ length bytes
unfolding read_len_loop
read_len_loop-shorter zero index value bytes n rest e = absurd (ground (arith, e))
read_len_loop-shorter (suc left) index value [] n rest e = absurd (ground (arith, e))
read_len_loop-shorter (suc left) index value (byte ∷ bytes) n rest e =
    grind
      (arith, e, read_len_loop-shorter left (index + 1) (add_bits value byte index) bytes n rest)

read_short-shorter :
    (bytes : List ℕ) (n : ℕ) (rest : List ℕ)
    → read_short_binary_payload_len bytes ≡ ok (n, rest)
    → length rest ≤ length bytes
unfolding read_short_binary_payload_len
read_short-shorter bytes n rest e = read_len_loop-shorter 4 0 0 bytes n rest e

read_line-shorter : (bytes : List ℕ) → length (read_line bytes).1 ≤ length bytes
unfolding read_line
read_line-shorter [] = omega arith
read_line-shorter (b ∷ bytes) = ground (arith, read_line-shorter bytes)

module _ (j : Json) (f : ClientStreamFrame) (rest : List ℕ) where
  read_binary-shorter :
      (bytes : List ℕ) → read_binary j bytes ≡ ok (some (f, rest)) → length rest ≤ length bytes
  unfolding read_binary
  read_binary-shorter [] e = absurd (ground (arith, e))
  read_binary-shorter (a ∷ []) e = absurd (ground (arith, e))
  read_binary-shorter (a ∷ (b ∷ [])) e = absurd (ground (arith, e))
  read_binary-shorter (a ∷ (b ∷ (c ∷ []))) e = absurd (ground (arith, e))
  read_binary-shorter (a ∷ (b ∷ (c ∷ (d ∷ [])))) e = absurd (ground (arith, e))
  read_binary-shorter (a ∷ (b ∷ (c ∷ (d ∷ (g ∷ []))))) e = absurd (ground (arith, e))
  read_binary-shorter (a ∷ (b ∷ (c ∷ (d ∷ (g ∷ (h ∷ [])))))) e = absurd (ground (arith, e))
  read_binary-shorter (a ∷ (b ∷ (c ∷ (d ∷ (g ∷ (h ∷ (i ∷ bytes))))))) e =
      by_header (decode_binary_header binary_frame_magic a b c d g h i) refl
    where
      by_header :
          (r : Result Failure (ℕ × ℕ × ℕ))
          → decode_binary_header binary_frame_magic a b c d g h i ≡ r
          → length rest ≤ length (a ∷ (b ∷ (c ∷ (d ∷ (g ∷ (h ∷ (i ∷ bytes)))))))
      by_header (err x) q = absurd (ground (arith, e, q))
      by_header (ok (kind, m, n)) q = by_id (read_exact m bytes) refl
        where
          by_id :
              (r : Result Failure (List ℕ × List ℕ))
              → read_exact m bytes ≡ r
              → length rest ≤ length (a ∷ (b ∷ (c ∷ (d ∷ (g ∷ (h ∷ (i ∷ bytes)))))))
          by_id (err x) u = absurd (ground (arith, e, q, u))
          by_id (ok (id, bytes')) u = by_payload (read_exact n bytes') refl
            where
              by_payload :
                  (r : Result Failure (List ℕ × List ℕ))
                  → read_exact n bytes' ≡ r
                  → length rest ≤ length (a ∷ (b ∷ (c ∷ (d ∷ (g ∷ (h ∷ (i ∷ bytes)))))))
              by_payload (err x) v = absurd (ground (arith, e, q, u, v))
              by_payload (ok (payload, rest')) v = ground (
                arith,
                e,
                q,
                u,
                v,
                read_exact-shorter m bytes id bytes' u,
                read_exact-shorter n bytes' payload rest' v,
              )

  read_short_binary-shorter :
      (bytes : List ℕ)
      → read_short_binary j bytes ≡ ok (some (f, rest))
      → length rest ≤ length bytes
  unfolding read_short_binary
  read_short_binary-shorter bytes e = by_len (read_short_binary_payload_len bytes) refl
    where
      by_len :
          (r : Result Failure (ℕ × List ℕ))
          → read_short_binary_payload_len bytes ≡ r
          → length rest ≤ length bytes
      by_len (err x) q = absurd (ground (arith, e, q))
      by_len (ok (n, bytes')) q = by_payload (read_exact n bytes') refl
        where
          by_payload :
              (r : Result Failure (List ℕ × List ℕ))
              → read_exact n bytes' ≡ r
              → length rest ≤ length bytes
          by_payload (err x) u = absurd (ground (arith, e, q, u))
          by_payload (ok (payload, rest')) u = ground (
            arith,
            e,
            q,
            u,
            read_short-shorter bytes n bytes' q,
            read_exact-shorter n bytes' payload rest' u,
          )

  read_json-shorter :
      (first : ℕ) (bytes : List ℕ)
      → read_json j first bytes ≡ ok (some (f, rest))
      → length rest ≤ length bytes
  unfolding read_json
  read_json-shorter first bytes e = ground (arith, e, read_line-shorter bytes)

  -- What follows a frame is shorter than the stream.
  pub read-shorter :
      (bytes : List ℕ)
      → read_client_stream_frame j bytes ≡ ok (some (f, rest))
      → length rest < length bytes
  unfolding read_client_stream_frame
  read-shorter [] e = absurd (ground (arith, e))
  read-shorter (first ∷ bytes) e = grind (
    arith,
    e,
    read_binary-shorter bytes,
    read_short_binary-shorter bytes,
    read_json-shorter first bytes,
  )
