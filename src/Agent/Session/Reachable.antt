-- ===== src/Agent/Session/Reachable.antt =====
-- The states of the sessions that clients and shells lead to (components/agent/src/session.rs).
use wisp_shell.Prelude.{
  subst, ◌≡◌, refl, sym, Option, none, some, List, Str, Result, ok, err, ℕ, arith,
}
use wisp_shell.Prelude.HashMap.{modify}
use wisp_shell.Protocol.Failure.{Failure}
use wisp_shell.Agent.Session.{
  Pty, SessionRuntime, SessionManager, SessionAttachResult, find_id, by_id, attach_or_create, input,
  resize, detach, on_output, new, set_remove,
}
use wisp_shell.Agent.Session.Ownership.{input_owned}
use wisp_shell.Agent.Session.Invariant.{IsWellFormed, changed, attach-IsWellFormed}

module _ {Handle : Type 0} where
  -- A change of one entry that leaves names and ids.
  record IsTouched (m m' : SessionManager Handle) : Type 0 where
    pub name : Str
    pub f : SessionRuntime Handle → SessionRuntime Handle
    pub id_same : (s : SessionRuntime Handle) → (f s).id ≡ s.id
    pub name_same : (s : SessionRuntime Handle) → (f s).name ≡ s.name
    pub after : m' ≡ record m { inner = modify m.inner name f }

  IsTouched-IsWellFormed :
      (m m' : SessionManager Handle) → IsTouched m m' → IsWellFormed m → IsWellFormed m'
  IsTouched-IsWellFormed m m' t w =
      subst IsWellFormed (sym t.after) (changed m t.name t.f t.id_same t.name_same w)

  input-IsTouched :
      (p : Pty Handle) (m m' : SessionManager Handle) (client id : Str) (bytes : List ℕ)
      → input p m client id bytes ≡ ok m'
      → IsTouched m m'
  input-IsTouched p m m' client id bytes e =
      let (name, s, pty, found, owned, written, after) = input_owned p m m' client id bytes e in
      record {
        name = name;
        f = λ (x : SessionRuntime Handle). record x { pty = pty };
        id_same = λ x. refl;
        name_same = λ x. refl;
        after = after;
      }

  detach-IsTouched :
      (m m' : SessionManager Handle) (client id : Str) → detach m client id ≡ ok m' → IsTouched m m'
  unfolding detach
  detach-IsTouched m m' client id e = by_session (by_id m id) refl
    where
      by_session :
          (o : Result Failure (Str × SessionRuntime Handle)) → by_id m id ≡ o → IsTouched m m'
      by_session (err x) q = absurd (ground (arith, e, q))
      by_session (ok (name, s)) q = record {
        name = name;
        f = λ (x : SessionRuntime Handle). record x {
          attached_clients = set_remove x.attached_clients client;
        };
        id_same = λ x. refl;
        name_same = λ x. refl;
        after = ground (arith, e, q);
      }

  resize-IsWellFormed :
      (p : Pty Handle) (m : SessionManager Handle) (id : Str) (cols rows : ℕ)
      → IsWellFormed m
      → IsWellFormed (resize p m id cols rows).1
  unfolding resize
  resize-IsWellFormed p m id cols rows w = by_session (by_id m id) refl
    where
      by_session :
          (o : Result Failure (Str × SessionRuntime Handle))
          → by_id m id ≡ o
          → IsWellFormed (resize p m id cols rows).1
      by_session (err x) q = rw (q, resize) w
      by_session (ok (name, s)) q = by_pty (p.set_size s.pty cols rows) refl
        where
          by_pty :
              (h : Option Handle)
              → p.set_size s.pty cols rows ≡ h
              → IsWellFormed (resize p m id cols rows).1
          by_pty none a =
              rw (q, a, resize)
                (changed m name
                  (λ (x : SessionRuntime Handle). record x { cols = cols; rows = rows }) (λ x. refl)
                  (λ x. refl) w)
          by_pty (some pty) a =
              rw (q, a, resize)
                (changed m name
                  (λ (x : SessionRuntime Handle). record x { cols = cols; rows = rows; pty = pty })
                  (λ x. refl) (λ x. refl) w)

  on_output-IsWellFormed :
      (m : SessionManager Handle) (name : Str) (bytes : List ℕ)
      → IsWellFormed m
      → IsWellFormed (on_output m name bytes)
  unfolding on_output
  on_output-IsWellFormed m name bytes w = changed m name _ (λ s. refl) (λ s. refl) w

  -- The states that the clients and the shells lead to. A new session's id is unused.
  pub data Reachable (standard : List ℕ → Str) (p : Pty Handle)
      : SessionManager Handle → Type 0 where
    started : (shell : Str) (a b : ℕ) → Reachable standard p (new shell a b)
    attaching :
        {m m' : SessionManager Handle} (client name : Str) (cols rows : ℕ) (uuid : Str) (now : ℕ)
        (r : SessionAttachResult)
        → Reachable standard p m
        → find_id m.inner uuid ≡ none
        → attach_or_create standard p m client name cols rows uuid now ≡ ok (r, m')
        → Reachable standard p m'
    typing :
        {m m' : SessionManager Handle} (client id : Str) (bytes : List ℕ)
        → Reachable standard p m
        → input p m client id bytes ≡ ok m'
        → Reachable standard p m'
    resizing :
        {m : SessionManager Handle} (id : Str) (cols rows : ℕ)
        → Reachable standard p m
        → Reachable standard p (resize p m id cols rows).1
    detaching :
        {m m' : SessionManager Handle} (client id : Str)
        → Reachable standard p m
        → detach m client id ≡ ok m'
        → Reachable standard p m'
    printing :
        {m : SessionManager Handle} (name : Str) (bytes : List ℕ)
        → Reachable standard p m
        → Reachable standard p (on_output m name bytes)

  -- In every state that attaching, typing, resizing, detaching and printing lead to from a new
  -- manager, a new session's id being unused, the sessions stand under their own names and have
  -- distinct ids.
  pub Reachable-IsWellFormed :
      {standard : List ℕ → Str} {p : Pty Handle} (m : SessionManager Handle)
      → Reachable standard p m
      → IsWellFormed m
  Reachable-IsWellFormed m (started shell a b) = record { keyed = tt; distinct = tt }
  Reachable-IsWellFormed {standard} {p} m
        (attaching {m = old} client name cols rows uuid now r before fresh e) =
      (attach-IsWellFormed standard p old client name cols rows uuid now r m
        (Reachable-IsWellFormed old before) fresh e).0
  Reachable-IsWellFormed {standard} {p} m (typing {m = old} client id bytes before e) =
      IsTouched-IsWellFormed old m (input-IsTouched p old m client id bytes e)
        (Reachable-IsWellFormed old before)
  Reachable-IsWellFormed {standard} {p} m (resizing {m = old} id cols rows before) =
      resize-IsWellFormed p old id cols rows (Reachable-IsWellFormed old before)
  Reachable-IsWellFormed m (detaching {m = old} client id before e) =
      IsTouched-IsWellFormed old m (detach-IsTouched old m client id e)
        (Reachable-IsWellFormed old before)
  Reachable-IsWellFormed m (printing {m = old} name bytes before) =
      on_output-IsWellFormed old name bytes (Reachable-IsWellFormed old before)
