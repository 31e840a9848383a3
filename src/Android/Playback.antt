-- ===== src/Android/Playback.antt =====
-- All of a session's output from the task of the daemon that sends it (components/agent/src/
-- transport_stream.rs) to the task of the phone that reads it
-- (crates/wispshell-core/src/android_jni.rs).
use wisp_shell.Prelude.{
  ℕ, zero, suc, ◌+◌, ◌≤◌, ◌≡◌, ◌∙◌, ap, refl, subst, sym, true, false, Bool, none, some, List, [],
  ◌∷◌, ◌++◌, map, length, Str, ok, err, arith, All, append_assoc, append-nil,
}
use wisp_shell.Prelude.Broadcast.{Received, message, lagged}
use wisp_shell.Protocol.Messages.{max_binary_payload_len}
use wisp_shell.Protocol.Frames.{encode_short_binary_frame}
use wisp_shell.Agent.Streams.{Json}
use wisp_shell.Agent.Serve.{Standard, Connection, Outcome, and_then, write_all}
use wisp_shell.Agent.Serve.Output.{write_output, write_short_binary_frame}
use wisp_shell.Agent.Serve.Task.{unless_broken, output_task, output_task-lagged}
use wisp_shell.Android.Frames.{read_agent_stream_frame}
use wisp_shell.Android.Frames.RoundTrip.{read_agent-encode_short_binary_frame}
use wisp_shell.Android.Terminal.{Terminal, Call, Next, again, call, on_output, on_read}
use wisp_shell.Android.EndToEnd.{encode_short_fits}

-- `while let Ok(bytes) = rx.recv()` over the chunks that come.
module _ {Handle : Type 0} (j : Json) (standard : Standard) where
  unfoldable pub send_loop : Connection Handle → Str → List (List ℕ) → Outcome Handle
  unfolding write_output
  send_loop c id [] = (ok tt, c)
  send_loop c id (bytes ∷ chunks) =
      and_then (write_output j standard c id bytes) (λ c'. send_loop c' id chunks)

-- The loop of the task that reads, without its wait before the attachment: at each round, the
-- clock's reading. Out of fuel, it would go on.
module _ (j : Json) (standard : Standard) (clock : ℕ → ℕ) where
  unfoldable pub read_loop : (fuel n : ℕ) → List ℕ → Terminal → Next × Terminal
  unfolding read_agent_stream_frame on_read
  read_loop zero n bytes t = (again, t)
  read_loop (suc fuel) n bytes t = elim (read_agent_stream_frame j bytes) [
    | err e ↦ on_read standard t (err e) (clock n)
    | ok none ↦ on_read standard t (ok none) (clock n)
    | ok (some (frame, rest)) ↦
        read_loop fuel (n + 1) rest (on_read standard t (ok (some (frame, rest))) (clock n)).1
  ]

  read_loop-short :
      (fuel n : ℕ) (bytes rest frame : List ℕ) (t : Terminal)
      → encode_short_binary_frame bytes ≡ ok frame
      → read_loop (suc fuel) n (frame ++ rest) t
        ≡ read_loop fuel (n + 1) rest (call t (on_output bytes ∷ []))
  unfolding read_loop on_read
  read_loop-short fuel n bytes rest frame t e =
      rw (read_loop, read_agent-encode_short_binary_frame j bytes rest frame e) refl

write_output-short :
    {Handle : Type 0} (j : Json) (standard : Standard) (c : Connection Handle) (id : Str)
    (bytes frame : List ℕ)
    → c.binary_output_enabled ≡ true
    → c.peer_open ≡ true
    → encode_short_binary_frame bytes ≡ ok frame
    → write_output j standard c id bytes ≡ (ok tt, record c { written = c.written ++ frame })
unfolding write_output write_short_binary_frame write_all
write_output-short j standard c id bytes frame binary_on peer e =
    rw (write_output, write_short_binary_frame, write_all, binary_on, e, peer) refl

module _ {Handle : Type 0} (j : Json) (standard : Standard) (clock : ℕ → ℕ) where
  -- What the daemon wrote for the chunks, and what the phone did on it.
  pub record IsPlayed (c : Connection Handle) (id : Str) (chunks : List (List ℕ)) (fuel n : ℕ)
      (rest : List ℕ) (t : Terminal) : Type 0 where
    pub stream : List ℕ
    pub sent :
        send_loop j standard c id chunks ≡ (ok tt, record c { written = c.written ++ stream })
    pub shown :
        read_loop j standard clock (length chunks + fuel) n (stream ++ rest) t
        ≡ read_loop j standard clock fuel (n + length chunks) rest (call t (map on_output chunks))

  pub send_loop-IsPlayed :
      (c : Connection Handle) (id : Str) (chunks : List (List ℕ)) (fuel n : ℕ) (rest : List ℕ)
      (t : Terminal)
      → c.binary_output_enabled ≡ true
      → c.peer_open ≡ true
      → All (λ (bytes : List ℕ). length bytes ≤ max_binary_payload_len) chunks
      → IsPlayed c id chunks fuel n rest t
  unfolding send_loop
  send_loop-IsPlayed c id [] fuel n rest t binary_on peer fits = record {
    stream = [];
    sent = ap (λ (w : List ℕ). (ok tt, record c { written = w })) (sym (append-nil c.written));
    shown =
        let e : n + 0 ≡ n = omega arith in
        let f : 0 + fuel ≡ fuel = omega arith in rw (e, f, append-nil t.calls) refl;
  }
  send_loop-IsPlayed c id (bytes ∷ chunks) fuel n rest t binary_on peer fits =
      let (frame, e) = encode_short_fits bytes fits.0 in
      let c' : Connection Handle = record c { written = c.written ++ frame } in
      let later =
        send_loop-IsPlayed c' id chunks fuel (n + 1) rest (call t (on_output bytes ∷ [])) binary_on
          peer fits.1 in
      record {
        stream = frame ++ later.stream;
        sent =
            ap (λ (o : Outcome Handle). and_then o (λ x. send_loop j standard x id chunks))
              (write_output-short j standard c id bytes frame binary_on peer e)
            ∙ later.sent
            ∙ ap (λ (w : List ℕ). (ok tt, record c { written = w }))
                (append_assoc c.written frame later.stream);
        shown =
            let k : n + 1 + length chunks ≡ n + suc (length chunks) = omega arith in
            let same : call (call t (on_output bytes ∷ [])) (map on_output chunks)
                ≡ call t (on_output bytes ∷ map on_output chunks) =
              ap (λ (xs : List Call). record t { calls = xs })
                (append_assoc t.calls (on_output bytes ∷ []) (map on_output chunks)) in
            let f : suc (length chunks) + fuel ≡ suc (length chunks + fuel) = omega arith in
            ap (λ (i : ℕ). read_loop j standard clock i n ((frame ++ later.stream) ++ rest) t) f
            ∙ ap (λ (w : List ℕ). read_loop j standard clock (suc (length chunks + fuel)) n w t)
                (append_assoc frame later.stream rest)
            ∙ read_loop-short j standard clock (length chunks + fuel) n bytes (later.stream ++ rest)
                frame t e
            ∙ later.shown
            ∙ ap
                (λ (i : ℕ).
                  read_loop j standard clock fuel i rest
                    (call (call t (on_output bytes ∷ [])) (map on_output chunks)))
                k
            ∙ ap (read_loop j standard clock fuel (n + suc (length chunks)) rest) same;
      }

module _ {Handle : Type 0} where
  unless_broken-and_then :
      (o : Outcome Handle) (task : Connection Handle → Bool × Connection Handle)
      (loop : Connection Handle → Outcome Handle)
      → ((c : Connection Handle) → (task c).1 ≡ (loop c).1)
      → (unless_broken o task).1 ≡ (and_then o loop).1
  unless_broken-and_then (ok u, c) task loop same = same c
  unless_broken-and_then (err e, c) task loop same = refl

module _ {Handle : Type 0} (j : Json) (standard : Standard) where
  -- The task writes what the loop over its outputs writes.
  pub output_task-send_loop :
      (c : Connection Handle) (id : Str) (chunks : List (List ℕ))
      → (output_task j standard c id (map message chunks)).1 ≡ (send_loop j standard c id chunks).1
  unfolding send_loop output_task
  output_task-send_loop c id [] = refl
  output_task-send_loop c id (bytes ∷ chunks) =
      unless_broken-and_then (write_output j standard c id bytes)
        (λ c'. output_task j standard c' id (map message chunks))
        (λ c'. send_loop j standard c' id chunks) (λ c'. output_task-send_loop c' id chunks)

  -- A client that falls behind the session's output by more than the channel holds is shown the
  -- outputs before that, and none of the later ones: what the task has written stays what the
  -- phone reads as the first ones, whatever the channel answers from then on. The connection is in
  -- binary mode, its transport takes what is sent, and no output is longer than 16 MiB.
  pub lagged-IsPlayed :
      (clock : ℕ → ℕ) (c : Connection Handle) (id : Str) (chunks : List (List ℕ)) (missed : ℕ)
      (later : List (Received (List ℕ))) (fuel n : ℕ) (t : Terminal)
      → c.binary_output_enabled ≡ true
      → c.peer_open ≡ true
      → All (λ (bytes : List ℕ). length bytes ≤ max_binary_payload_len) chunks
      → (stream : List ℕ) × (output_task j standard c id
            (map message chunks ++ lagged missed ∷ later)
          ≡ (false, record c { written = c.written ++ stream }))
        × (read_loop j standard clock (length chunks + fuel) n stream t
            ≡ read_loop j standard clock fuel
                (n + length chunks)
                []
                (call t (map on_output chunks)))
  lagged-IsPlayed clock c id chunks missed later fuel n t binary_on peer fits =
      let played =
        send_loop-IsPlayed j standard clock c id chunks fuel n [] t binary_on peer fits in
      (
        played.stream,
        output_task-lagged j standard c id chunks missed later
            ∙ ap (λ x. (false, x)) (output_task-send_loop c id chunks ∙ ap (λ o. o.1) played.sent),
        subst
            (λ x.
              read_loop j standard clock (length chunks + fuel) n x t
              ≡ read_loop j standard clock fuel (n + length chunks) []
                  (call t (map on_output chunks)))
            (append-nil played.stream) played.shown,
      )
