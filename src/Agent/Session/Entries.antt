-- ===== src/Agent/Session/Entries.antt =====
-- The entries of the session map: finding a session by its id, and ids that are distinct.
use wisp_shell.Prelude.{
  ◌≡◌, ◌≢◌, refl, none, some, [], ◌∷◌, Str, str_eq, str_eq_iff, str_eq_refl, false, arith,
}
use wisp_shell.Prelude.HashMap.{HashMap, get, insert, modify}
use wisp_shell.Agent.Session.{SessionRuntime, find_id}

module _ {Handle : Type 0} where
  abbrev pub session_name : SessionRuntime Handle → Str
  session_name s = s.name

  abbrev pub HasDistinctIds : HashMap (SessionRuntime Handle) → Type 0
  HasDistinctIds [] = Unit {0}
  HasDistinctIds ((name, s) ∷ inner) = (find_id inner s.id ≡ none) × HasDistinctIds inner

  find_id-get :
      (inner : HashMap (SessionRuntime Handle)) (name : Str) (s : SessionRuntime Handle)
      → get inner name ≡ some s
      → find_id inner s.id ≢ none
  unfolding find_id get
  find_id-get [] name s e = λ f. absurd (ground (arith, e))
  find_id-get ((j, w) ∷ inner) name s e =
      ground (arith, e, str_eq_refl s.id, find_id-get inner name s)

  -- The entry of a session that is put back changed is found under its id.
  pub find_id-insert :
      (inner : HashMap (SessionRuntime Handle)) (name : Str) (s s' : SessionRuntime Handle)
      → HasDistinctIds inner
      → get inner name ≡ some s
      → s'.id ≡ s.id
      → find_id (insert inner name s') s.id ≡ some (name, s')
  unfolding find_id get insert
  find_id-insert [] name s s' h e same = absurd (ground (arith, e))
  find_id-insert ((j, w) ∷ inner) name s s' h e same = ground (
    arith,
    e,
    same,
    h.0,
    str_eq_iff j name,
    str_eq_iff w.id s.id,
    str_eq_refl s.id,
    find_id-get inner name s,
    find_id-insert inner name s s' h.1,
  )

  pub find_id-insert_new :
      (inner : HashMap (SessionRuntime Handle)) (name : Str) (s : SessionRuntime Handle)
      → get inner name ≡ none
      → find_id inner s.id ≡ none
      → find_id (insert inner name s) s.id ≡ some (name, s)
  unfolding find_id get insert
  find_id-insert_new [] name s e f = ground (arith, str_eq_refl s.id)
  find_id-insert_new ((j, w) ∷ inner) name s e f =
      ground (arith, e, f, find_id-insert_new inner name s)

  find_id-insert-none :
      (inner : HashMap (SessionRuntime Handle)) (name id : Str) (s : SessionRuntime Handle)
      → find_id inner id ≡ none
      → str_eq s.id id ≡ false
      → find_id (insert inner name s) id ≡ none
  unfolding find_id insert
  find_id-insert-none [] name id s e f = ground (arith, f)
  find_id-insert-none ((j, w) ∷ inner) name id s e f =
      ground (arith, e, f, find_id-insert-none inner name id s)

  pub insert-HasDistinctIds :
      (inner : HashMap (SessionRuntime Handle)) (name : Str) (s s' : SessionRuntime Handle)
      → get inner name ≡ some s
      → s'.id ≡ s.id
      → HasDistinctIds inner
      → HasDistinctIds (insert inner name s')
  unfolding find_id get insert
  insert-HasDistinctIds [] name s s' e same h = absurd (ground (arith, e))
  insert-HasDistinctIds ((j, w) ∷ inner) name s s' e same h = ground (
    arith,
    e,
    same,
    str_eq_iff s'.id w.id,
    find_id-get inner name s,
    find_id-insert-none inner name w.id s',
    insert-HasDistinctIds inner name s s',
  )

  pub insert_new-HasDistinctIds :
      (inner : HashMap (SessionRuntime Handle)) (name : Str) (s : SessionRuntime Handle)
      → get inner name ≡ none
      → find_id inner s.id ≡ none
      → HasDistinctIds inner
      → HasDistinctIds (insert inner name s)
  unfolding find_id get insert
  insert_new-HasDistinctIds [] name s e f h = (refl, tt)
  insert_new-HasDistinctIds ((j, w) ∷ inner) name s e f h = ground (
    arith,
    str_eq_iff w.id s.id,
    str_eq_iff s.id w.id,
    find_id-insert-none inner name w.id s,
    insert_new-HasDistinctIds inner name s,
  )

  find_id-modify-none :
      (inner : HashMap (SessionRuntime Handle)) (name id : Str)
      (f : SessionRuntime Handle → SessionRuntime Handle)
      → ((s : SessionRuntime Handle) → (f s).id ≡ s.id)
      → find_id inner id ≡ none
      → find_id (modify inner name f) id ≡ none
  unfolding find_id modify
  find_id-modify-none [] name id f same e = refl
  find_id-modify-none ((j, w) ∷ inner) name id f same e =
      ground (arith, e, same w, find_id-modify-none inner name id f same)

  pub modify-HasDistinctIds :
      (inner : HashMap (SessionRuntime Handle)) (name : Str)
      (f : SessionRuntime Handle → SessionRuntime Handle)
      → ((s : SessionRuntime Handle) → (f s).id ≡ s.id)
      → HasDistinctIds inner
      → HasDistinctIds (modify inner name f)
  unfolding modify
  modify-HasDistinctIds [] name f same h = tt
  modify-HasDistinctIds ((j, w) ∷ inner) name f same h = ground (
    arith,
    h,
    same w,
    find_id-modify-none inner name w.id f same,
    modify-HasDistinctIds inner name f same,
  )
