-- ===== src/Agent/Session/Isolation.antt =====
-- What input and detachment leave of the sessions of others (components/agent/src/session.rs).
use wisp_shell.Prelude.{
  ℕ, Bool, Bool-cases, true, false, ◌≡◌, ◌≢◌, ◌∙◌, refl, ap, ◌⊎◌, inl, inr, Option, none, some,
  List, [], ◌∷◌, Str, str_eq, str_eq_iff, Result, ok, err, if◌then◌else◌, arith,
}
use mathlib.Core.Option
use wisp_shell.Prelude.HashMap.{HashMap, get, modify, get-modify}
use wisp_shell.Prelude.HashMap.Keyed.{IsKeyed}
use wisp_shell.Protocol.Failure.{Failure}
use wisp_shell.Agent.Session.{
  Pty, SessionRuntime, SessionManager, SessionAttachResult, attach_or_create, find_id, by_id,
  set_remove,
}
use wisp_shell.Agent.Session as Session
use wisp_shell.Agent.Session.Entries.{session_name}
use wisp_shell.Agent.Session.Ownership.{input_owned}
use wisp_shell.Agent.Session.Invariant.{IsWellFormed}

module _ {Handle : Type 0} where
  -- A session that is found by its id stands under its name.
  find_id-IsKeyed :
      (inner : HashMap (SessionRuntime Handle)) (id name : Str) (s : SessionRuntime Handle)
      → IsKeyed session_name inner
      → find_id inner id ≡ some (name, s)
      → get inner name ≡ some s
  unfolding find_id get
  find_id-IsKeyed [] id name s h e = absurd (ground (arith, e))
  find_id-IsKeyed ((i, w) ∷ inner) id name s h e =
      ground (arith, e, h.1, str_eq_iff i name, find_id-IsKeyed inner id name s h.2)

  by_id-IsKeyed :
      (m : SessionManager Handle) (id name : Str) (s : SessionRuntime Handle)
      → IsWellFormed m
      → by_id m id ≡ ok (name, s)
      → get m.inner name ≡ some s
  unfolding by_id
  by_id-IsKeyed m id name s w e = find_id-IsKeyed m.inner id name s w.keyed (ground (arith, e))

  -- Input leaves each session that another client owns, or no client, as it was.
  pub get-input :
      (p : Pty Handle) (m m' : SessionManager Handle) (client id name : Str) (bytes : List ℕ)
      (s : SessionRuntime Handle)
      → IsWellFormed m
      → get m.inner name ≡ some s
      → s.input_owner ≢ some client
      → Session.input p m client id bytes ≡ ok m'
      → get m'.inner name ≡ some s
  get-input p m m' client id name bytes s w found other e =
      let (n, s0, pty, at, owned, written, after) = input_owned p m m' client id bytes e in
      let there = by_id-IsKeyed m id n s0 w at in
      rw (after, get-modify) (by_name n s0 pty there owned (Bool-cases (str_eq n name)))
    where
      by_name :
          (n : Str) (s0 : SessionRuntime Handle) (pty : Handle)
          → get m.inner n ≡ some s0
          → s0.input_owner ≡ some client
          → (str_eq n name ≡ true) ⊎ (str_eq n name ≡ false)
          → (if str_eq n name
              then Option.map
                  (λ (x : SessionRuntime Handle). record x { pty = pty })
                  (get m.inner name)
              else get m.inner name)
            ≡ some s
      by_name n s0 pty there owned (inl t) =
          absurd (ground (arith, t, there, found, owned, other, str_eq_iff n name))
      by_name n s0 pty there owned (inr t) = rw t found

  -- The terminal of the session under a name.
  abbrev pub terminal : SessionManager Handle → Str → Option Handle
  terminal m name = Option.map (λ (s : SessionRuntime Handle). s.pty) (get m.inner name)

  terminal-modify :
      (m : SessionManager Handle) (n name : Str) (f : SessionRuntime Handle → SessionRuntime Handle)
      → ((s : SessionRuntime Handle) → (f s).pty ≡ s.pty)
      → terminal (record m { inner = modify m.inner n f }) name ≡ terminal m name
  terminal-modify m n name f same =
      rw (get-modify m.inner n name f) (by_value (str_eq n name) (get m.inner name))
    where
      by_value :
          (t : Bool) (o : Option (SessionRuntime Handle))
          → Option.map (λ (s : SessionRuntime Handle). s.pty) (if t then Option.map f o else o)
            ≡ Option.map (λ (s : SessionRuntime Handle). s.pty) o
      by_value true none = refl
      by_value false none = refl
      by_value true (some s) = ap some (same s)
      by_value false (some s) = refl

  pub terminal-detach :
      (m m' : SessionManager Handle) (client id name : Str)
      → Session.detach m client id ≡ ok m'
      → terminal m' name ≡ terminal m name
  unfolding Session.detach
  terminal-detach m m' client id name e = by_session (by_id m id) refl
    where
      by_session :
          (o : Result Failure (Str × SessionRuntime Handle))
          → by_id m id ≡ o
          → terminal m' name ≡ terminal m name
      by_session (err x) q = absurd (ground (arith, e, q))
      by_session (ok (n, s)) q =
          let f = λ (x : SessionRuntime Handle). record x {
            attached_clients = set_remove x.attached_clients client;
          } in
          let a : m' ≡ record m { inner = modify m.inner n f } = ground (arith, e, q) in
          ap (λ (x : SessionManager Handle). terminal x name) a
          ∙ terminal-modify m n name f (λ x. refl)
