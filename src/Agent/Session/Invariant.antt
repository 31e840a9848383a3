-- ===== src/Agent/Session/Invariant.antt =====
-- The sessions stand under their own names, and no two have the same id.
use wisp_shell.Prelude.{
  subst, ◌≡◌, refl, sym, ◌⊎◌, inl, inr, none, some, List, Str, Result, ok, err, ℕ, arith,
  Option-cases,
}
use wisp_shell.Prelude.HashMap.{get, insert, modify}
use wisp_shell.Prelude.HashMap.Keyed.{IsKeyed, insert-IsKeyed, modify-IsKeyed, get-IsKeyed}
use wisp_shell.Protocol.Failure.{Failure}
use wisp_shell.Agent.Session.{
  Pty, SessionRuntime, SessionManager, SessionAttachResult, find_id, by_id, spawn_session,
  get_or_create, attached_session, attach_or_create, new,
}
use wisp_shell.Agent.Session.Entries.{
  session_name, HasDistinctIds, find_id-insert, find_id-insert_new, insert-HasDistinctIds,
  insert_new-HasDistinctIds, modify-HasDistinctIds,
}

module _ {Handle : Type 0} where
  pub record IsWellFormed (m : SessionManager Handle) : Type 0 where
    pub keyed : IsKeyed session_name m.inner
    pub distinct : HasDistinctIds m.inner

  -- A change that leaves names and ids keeps the invariant.
  pub changed :
      (m : SessionManager Handle) (name : Str) (f : SessionRuntime Handle → SessionRuntime Handle)
      → ((s : SessionRuntime Handle) → (f s).id ≡ s.id)
      → ((s : SessionRuntime Handle) → (f s).name ≡ s.name)
      → IsWellFormed m
      → IsWellFormed (record m { inner = modify m.inner name f })
  changed m name f id same w = record {
    keyed = modify-IsKeyed session_name m.inner name f same w.keyed;
    distinct = modify-HasDistinctIds m.inner name f id w.distinct;
  }

  attach_cases :
      (standard : List ℕ → Str) (p : Pty Handle) (m : SessionManager Handle) (client name : Str)
      (cols rows : ℕ) (uuid : Str) (now : ℕ) (r : SessionAttachResult) (m' : SessionManager Handle)
      → attach_or_create standard p m client name cols rows uuid now ≡ ok (r, m')
      → (s : SessionRuntime Handle) × (get_or_create p m name cols rows uuid now ≡ ok s)
        × (m' ≡ record m { inner = insert m.inner name (attached_session s client cols rows now) })
        × (r.session_id ≡ s.id)
  unfolding attach_or_create
  attach_cases standard p m client name cols rows uuid now r m' e =
      by_session (get_or_create p m name cols rows uuid now) refl
    where
      by_session :
          (o : Result Failure (SessionRuntime Handle))
          → get_or_create p m name cols rows uuid now ≡ o
          → (s : SessionRuntime Handle) × (get_or_create p m name cols rows uuid now ≡ ok s)
            × (m' ≡ record m {
              inner = insert m.inner name (attached_session s client cols rows now);
            })
            × (r.session_id ≡ s.id)
      by_session (err x) q = absurd (ground (arith, e, q))
      by_session (ok s) q = (s, q, ground (arith, e, q), ground (arith, e, q))

  -- A session that is new has the new id and the name; else it is the one under the name.
  get_or_create_cases :
      (p : Pty Handle) (m : SessionManager Handle) (name : Str) (cols rows : ℕ) (uuid : Str)
      (now : ℕ) (s : SessionRuntime Handle)
      → get_or_create p m name cols rows uuid now ≡ ok s
      → (get m.inner name ≡ some s) ⊎ ((get m.inner name ≡ none) × (s.id ≡ uuid) × (s.name ≡ name))
  unfolding get_or_create spawn_session
  get_or_create_cases p m name cols rows uuid now s e = elim (Option-cases (get m.inner name)) [
    | inl absent ↦ inr (absent, ground (arith, e, absent), ground (arith, e, absent))
    | inr (t, there) ↦ inl (ground (arith, e, there))
  ]

  attach_entry :
      (p : Pty Handle) (m : SessionManager Handle) (client name : Str) (cols rows : ℕ) (uuid : Str)
      (now : ℕ) (s : SessionRuntime Handle)
      → IsWellFormed m
      → find_id m.inner uuid ≡ none
      → get_or_create p m name cols rows uuid now ≡ ok s
      → IsWellFormed
          (record m { inner = insert m.inner name (attached_session s client cols rows now) })
        × (find_id (insert m.inner name (attached_session s client cols rows now)) s.id
            ≡ some (name, attached_session s client cols rows now))
  attach_entry p m client name cols rows uuid now s w new e =
      by_name (get_or_create_cases p m name cols rows uuid now s e)
    where
      by_name :
          (get m.inner name ≡ some s)
            ⊎ ((get m.inner name ≡ none) × (s.id ≡ uuid) × (s.name ≡ name))
          → IsWellFormed
              (record m { inner = insert m.inner name (attached_session s client cols rows now) })
            × (find_id (insert m.inner name (attached_session s client cols rows now)) s.id
                ≡ some (name, attached_session s client cols rows now))
      by_name (inl there) = (
        record {
          keyed =
              insert-IsKeyed session_name m.inner name (attached_session s client cols rows now)
                (get-IsKeyed session_name m.inner name {v = s} w.keyed there) w.keyed;
          distinct =
              insert-HasDistinctIds m.inner name s (attached_session s client cols rows now) there
                refl w.distinct;
        },
        find_id-insert m.inner name s (attached_session s client cols rows now) w.distinct there
            refl,
      )
      by_name (inr (absent, id, named)) =
          let unknown : find_id m.inner s.id ≡ none = rw id new in
          (
            record {
              keyed =
                  insert-IsKeyed session_name m.inner name (attached_session s client cols rows now)
                    named w.keyed;
              distinct =
                  insert_new-HasDistinctIds m.inner name (attached_session s client cols rows now)
                    absent unknown w.distinct;
            },
            find_id-insert_new m.inner name (attached_session s client cols rows now) absent
                unknown,
          )

  -- After a client attached, the session that it got is found under the id that it was told, as the
  -- attaching left it, and the invariant holds, if the id of a new session is unused.
  pub attach-IsWellFormed :
      (standard : List ℕ → Str) (p : Pty Handle) (m : SessionManager Handle) (client name : Str)
      (cols rows : ℕ) (uuid : Str) (now : ℕ) (r : SessionAttachResult) (m' : SessionManager Handle)
      → IsWellFormed m
      → find_id m.inner uuid ≡ none
      → attach_or_create standard p m client name cols rows uuid now ≡ ok (r, m')
      → IsWellFormed m'
        × (s : SessionRuntime Handle) × (by_id m' r.session_id
            ≡ ok (name, attached_session s client cols rows now))
  unfolding by_id
  attach-IsWellFormed standard p m client name cols rows uuid now r m' w new e =
      let (s, q, after, told) = attach_cases standard p m client name cols rows uuid now r m' e in
      let (w', found) = attach_entry p m client name cols rows uuid now s w new q in
      (subst IsWellFormed (sym after) w', s, ground (arith, after, told, found))
