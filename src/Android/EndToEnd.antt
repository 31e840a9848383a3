-- ===== src/Android/EndToEnd.antt =====
-- A terminal's bytes from the daemon to the phone and back: components/agent/src/
-- transport_stream.rs against crates/wispshell-core/src/android_jni.rs.
use wisp_shell.Prelude.{
  ℕ, suc, ◌+◌, ◌≤◌, ◌≡◌, ◌∙◌, ap, refl, Bool-cases, true, false, inl, inr, ◌⊎◌, some, List, [], ◌∷◌,
  ◌++◌, length, Str, ok, arith,
}
use wisp_shell.Prelude.Bits.{lt_wf}
use wisp_shell.Protocol.Messages.{output, short_binary_frame_magic, max_binary_payload_len}
use wisp_shell.Protocol.Frames.{encode_short_binary_frame, length_bytes}
use wisp_shell.Agent.Streams.{Json, write_json}
use wisp_shell.Agent.Streams.RoundTrip.{IsLine, read-encode_short_binary_frame}
use wisp_shell.Agent.Session.{Pty, SessionManager}
use wisp_shell.Agent.Session as Session
use wisp_shell.Agent.Serve.{Standard, Connection, Surroundings, write_all, handle_frame}
use wisp_shell.Agent.Serve.Loop.{frame_loop, arrived}
use wisp_shell.Agent.Serve.Output.{write_output, write_short_binary_frame}
use wisp_shell.Android.Frames.{read_agent_stream_frame, binary_output}
use wisp_shell.Android.Frames as Frames
use wisp_shell.Android.Frames.RoundTrip.{
  read_agent-encode_short_binary_frame, read_agent-write_json,
}
use wisp_shell.Android.Terminal.{
  Terminal, input, again, call, on_output, on_read, on_message, on_command, write_input,
}

-- Every payload within the limit has a short frame.
pub encode_short_fits :
    (payload : List ℕ)
    → length payload ≤ max_binary_payload_len
    → (frame : List ℕ) × (encode_short_binary_frame payload ≡ ok frame)
unfolding encode_short_binary_frame
encode_short_fits payload fits = (
  short_binary_frame_magic
      ∷ (length_bytes (length payload) (lt_wf.apply (length payload)) ++ payload),
  ground (arith, fits),
)

message_shown :
    (standard : Standard) (t : Terminal) (id : Str) (bytes : List ℕ) (now : ℕ)
    → standard.decode (standard.encode bytes) ≡ some bytes
    → on_message standard t (output id (standard.encode bytes)) now ≡ call t (on_output bytes ∷ [])
unfolding on_message
message_shown standard t id bytes now decodes = ground (arith, decodes)

module _ {Handle : Type 0} (j : Json) (standard : Standard) where
  -- The daemon sends the output in one frame, which the phone shows as these bytes and no more.
  pub record IsShown (c : Connection Handle) (id : Str) (bytes rest : List ℕ) (t : Terminal)
      (now : ℕ) : Type 0 where
    pub frame : List ℕ
    pub sent :
        write_output j standard c id bytes ≡ (ok tt, record c { written = c.written ++ frame })
    pub shown :
        on_read standard t (read_agent_stream_frame j (frame ++ rest)) now
        ≡ (again, call t (on_output bytes ∷ []))

  -- The daemon sends a chunk of output of at most 16 MiB in one frame, in whichever mode its
  -- connection is, while the transport takes it, and the phone that reads this frame shows these
  -- bytes. The message of the chunk has a JSON line that begins with a brace, has no control
  -- characters and is read back, and its base64 decodes.
  pub write_output-IsShown :
      (c : Connection Handle) (id : Str) (bytes line rest : List ℕ) (t : Terminal) (now : ℕ)
      → c.peer_open ≡ true
      → length bytes ≤ max_binary_payload_len
      → j.agent_to_vec (output id (standard.encode bytes)) ≡ 123 ∷ line
      → IsLine line
      → j.agent_from_slice (j.agent_to_vec (output id (standard.encode bytes)))
        ≡ some (output id (standard.encode bytes))
      → standard.decode (standard.encode bytes) ≡ some bytes
      → IsShown c id bytes rest t now
  unfolding write_output write_short_binary_frame write_all on_read on_message
  write_output-IsShown c id bytes line rest t now peer fits begins is_line back decodes =
      by_mode (Bool-cases c.binary_output_enabled)
    where
      by_mode :
          (c.binary_output_enabled ≡ true) ⊎ (c.binary_output_enabled ≡ false)
          → IsShown c id bytes rest t now
      by_mode (inl binary_on) =
          let (frame, e) = encode_short_fits bytes fits in
          record {
            frame = frame;
            sent = rw (write_output, write_short_binary_frame, write_all, binary_on, e, peer) refl;
            shown = rw (read_agent-encode_short_binary_frame j bytes rest frame e) refl;
          }
      by_mode (inr off) = record {
        frame = write_json j (output id (standard.encode bytes));
        sent = rw (write_output, write_all, off, peer) refl;
        shown =
            ap (λ (x : Frames.Read). on_read standard t x now)
              (read_agent-write_json j (output id (standard.encode bytes)) line rest begins is_line
                back)
            ∙ ap (λ (x : Terminal). (again, x)) (message_shown standard t id bytes now decodes);
      }

  module _ (p : Pty Handle) (client_id : Str) (w : Surroundings Handle) where
    -- The phone sends the input in one frame, which the daemon types into the session.
    pub record IsTyped (t : Terminal) (c : Connection Handle) (bytes rest : List ℕ) (fuel n : ℕ)
        (m : SessionManager Handle) : Type 0 where
      pub frame : List ℕ
      pub sent : on_command j t (input bytes) ≡ (again, record t { written = t.written ++ frame })
      pub typed :
          frame_loop j standard p client_id w (suc fuel) n (frame ++ rest) c
          ≡ frame_loop j standard p client_id w fuel
              (n + 1)
              rest
              (record (arrived j standard p client_id w n c) {
                sessions = m;
                binary_output_enabled = true;
              })

    -- Input of at most 16 MiB on an attached terminal goes out in one frame, while the transport
    -- takes it, and the daemon that reads this frame types these bytes into the session that its
    -- connection is attached to by then, where the client may, and goes on with what follows.
    pub on_command-IsTyped :
        (t : Terminal) (c : Connection Handle) (id phone_id : Str) (bytes rest : List ℕ)
        (fuel n : ℕ) (m : SessionManager Handle)
        → t.session_id ≡ some phone_id
        → t.peer_open ≡ true
        → length bytes ≤ max_binary_payload_len
        → (arrived j standard p client_id w n c).attached_session_id ≡ some id
        → Session.input p (arrived j standard p client_id w n c).sessions client_id id bytes ≡ ok m
        → IsTyped t c bytes rest fuel n m
    unfolding on_command write_input frame_loop handle_frame
    on_command-IsTyped t c id phone_id bytes rest fuel n m known peer fits attached done =
        let (frame, e) = encode_short_fits bytes fits in
        record {
          frame = frame;
          sent = simp (on_command, known, write_input, e, peer) refl;
          typed =
              simp
                (
                  frame_loop,
                  read-encode_short_binary_frame j bytes rest frame e,
                  handle_frame,
                  attached,
                  done,
                )
                refl;
        }
