-- ===== src/Client/Terminal/RoundTrip.antt =====
-- The client and the daemon read each other's lines.
use wisp_shell.Prelude.{
  ℕ, zero, suc, ◌+◌, ◌≡◌, ◌≢◌, ◌>>=◌, ◌∙◌, ap, sym, refl, true, some, List, [], ◌∷◌, ◌++◌, length,
  length-append, append_assoc, Str, ok, arith,
}
use mathlib.Core.List.{reverse, reverse-append, reverse-reverse}
use wisp_shell.Protocol.Messages.{AgentToClient, ClientToAgent}
use wisp_shell.Agent.Streams.{Json, json, read_line, write_json, read_client_stream_frame}
use wisp_shell.Agent.Streams.RoundTrip.{IsLine, read_line-append, read-client_to_vec}
use wisp_shell.Client.Terminal.{
  white_len, drop_white, trim_end, write_client_frame, message_of, read_agent_frame, read,
}

-- A closing brace is no part of white space.
brace_ends : (before : List ℕ) → white_len (125 ∷ before) ≡ 0
unfolding white_len
brace_ends [] = refl
brace_ends (c ∷ []) = ground arith
brace_ends (c ∷ (d ∷ before)) = ground arith

drop_white-brace : (fuel : ℕ) (before : List ℕ) → drop_white fuel (125 ∷ before) ≡ 125 ∷ before
unfolding drop_white
drop_white-brace zero before = refl
drop_white-brace (suc fuel) before = rw (drop_white, brace_ends before) refl

drop_white-newline :
    (fuel : ℕ) (before : List ℕ) → drop_white (suc fuel) (10 ∷ (125 ∷ before)) ≡ 125 ∷ before
unfolding drop_white
drop_white-newline fuel before = drop_white-brace fuel before

-- A JSON object's text is what is left of its line.
trim_end-line : (text : Str) → trim_end ((text ++ 125 ∷ []) ++ 10 ∷ []) ≡ text ++ 125 ∷ []
unfolding trim_end
trim_end-line text =
    let turned : reverse ((text ++ 125 ∷ []) ++ 10 ∷ []) ≡ 10 ∷ (125 ∷ reverse text) =
      reverse-append (text ++ 125 ∷ []) (10 ∷ []) ∙ ap (◌∷◌ 10) (reverse-append text (125 ∷ [])) in
    let long : length ((text ++ 125 ∷ []) ++ 10 ∷ []) ≡ suc (length text + 1) =
      omega (arith, length-append (text ++ 125 ∷ []) (10 ∷ []), length-append text (125 ∷ [])) in
    ap (λ x. reverse (drop_white (length ((text ++ 125 ∷ []) ++ 10 ∷ [])) x)) turned
    ∙ ap (λ n. reverse (drop_white n (10 ∷ (125 ∷ reverse text)))) long
    ∙ ap reverse (drop_white-newline (length text + 1) (reverse text))
    ∙ ap reverse (sym (reverse-append text (125 ∷ [])))
    ∙ reverse-reverse (text ++ 125 ∷ [])

-- The JSON of a message from the daemon, that the client can read: an object on one line.
pub record IsObject (j : Json) (message : AgentToClient) : Type 0 where
  pub text : Str
  pub braced : j.agent_to_vec message ≡ text ++ 125 ∷ []
  pub plain : IsLine text
  pub utf8 : j.is_utf8 ((text ++ 125 ∷ []) ++ 10 ∷ []) ≡ true
  pub back : j.agent_from_slice (j.agent_to_vec message) ≡ some message

IsLine-brace : (text : Str) → IsLine text → IsLine (text ++ 125 ∷ [])
IsLine-brace [] h = (omega arith, tt)
IsLine-brace (b ∷ text) h = (h.0, IsLine-brace text h.1)

module _ (j : Json) (message : AgentToClient) (rest : List ℕ) (h : IsObject j message) where
  read_line-object :
      read_line (write_json j message ++ rest) ≡ ((h.text ++ 125 ∷ []) ++ 10 ∷ [], rest)
  unfolding write_json
  read_line-object =
      ap (λ x. read_line ((x ++ 10 ∷ []) ++ rest)) h.braced
      ∙ ap read_line (append_assoc (h.text ++ 125 ∷ []) (10 ∷ []) rest)
      ∙ read_line-append (h.text ++ 125 ∷ []) rest (IsLine-brace h.text h.plain)

  message_of-object : message_of j ((h.text ++ 125 ∷ []) ++ 10 ∷ [], rest) ≡ ok (message, rest)
  message_of-object =
      let own : j.agent_from_slice (trim_end ((h.text ++ 125 ∷ []) ++ 10 ∷ [])) ≡ some message =
        ap j.agent_from_slice (trim_end-line h.text ∙ sym h.braced) ∙ h.back in
      rw (h.utf8, own) refl

  -- What the daemon writes as JSON, the client reads back and leaves what follows, with the reader
  -- of the handshake and with the one of the terminal, when the JSON is an object on one line that
  -- is read back.
  pub read_agent_frame-write_json :
      (read_agent_frame j (write_json j message ++ rest) ≡ ok (message, rest))
      × (read j (write_json j message ++ rest) ≡ ok (some (message, rest)))
  unfolding read_agent_frame read
  read_agent_frame-write_json = by_stream (write_json j message ++ rest) read_line-object
    where
      by_stream :
          (bytes : List ℕ)
          → read_line bytes ≡ ((h.text ++ 125 ∷ []) ++ 10 ∷ [], rest)
          → (read_agent_frame j bytes ≡ ok (message, rest))
            × (read j bytes ≡ ok (some (message, rest)))
      by_stream [] e = absurd (nonempty (h.text ++ 125 ∷ []) (ap (λ x. x.0) e))
        where
          nonempty : (line : List ℕ) → [] ≢ line ++ 10 ∷ []
          nonempty [] q = cc
          nonempty (x ∷ line) q = cc
      by_stream (b ∷ bytes) e = (
        ap (message_of j) e ∙ message_of-object,
        ap (λ x. message_of j x >>= λ frame. ok (some frame)) e
            ∙ ap (λ x. x >>= λ frame. ok (some frame)) message_of-object,
      )

-- What the client sends, the daemon reads and leaves what follows.
pub read-write_client_frame :
    (j : Json) (message : ClientToAgent) (line rest : List ℕ)
    → j.client_to_vec message ≡ 123 ∷ line
    → IsLine line
    → j.client_from_slice (j.client_to_vec message) ≡ some message
    → read_client_stream_frame j (write_client_frame j message ++ rest)
      ≡ ok (some (json message, rest))
unfolding write_client_frame
read-write_client_frame j message line rest braced plain back =
    ap (read_client_stream_frame j) (append_assoc (j.client_to_vec message) (10 ∷ []) rest)
    ∙ read-client_to_vec j message line rest braced plain back
