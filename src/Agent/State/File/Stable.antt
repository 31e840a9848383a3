-- ===== src/Agent/State/File/Stable.antt =====
-- What the daemon finds in its file: what was saved, and the same device each time.
use wisp_shell.Prelude.{
  ℕ, ◌≡◌, true, Option, none, some, List, [], Str, Result, ok, err, length, refl, arith, ap, sym,
  ◌∙◌,
}
use wisp_shell.Protocol.Failure.{Failure}
use wisp_shell.Protocol.Crypto.{Primitives, IsLawful, device_id_from_public_key}
use wisp_shell.Protocol.Signing.{
  DeviceKeypair, device_id, private_key_b64, public_key_b64, from_private_key_b64,
}
use wisp_shell.Protocol.Signing.Keys.{restore-private_key}
use wisp_shell.Agent.State.{AgentState}
use wisp_shell.Agent.State.File.{
  StateFile, Access, Writing, refused, stopped, whole, StateJson, owner_only, path, write_then,
  read_state, save, created, create, load_or_create,
}

module _ (j : StateJson) where
  write_then_content :
      (a : Access) (w : Writing) (bytes : List ℕ) (disk disk' : Option StateFile)
      → write_then a w bytes disk ≡ (ok tt, disk')
      → disk' ≡ some (record { bytes = bytes; mode = owner_only })
  write_then_content a refused bytes disk disk' e = absurd (ground (arith, e))
  write_then_content a (stopped n) bytes disk disk' e = absurd (ground (arith, e))
  write_then_content a whole bytes none disk' e = ground (arith, e)
  write_then_content a whole bytes (some file) disk' e = ground (arith, e)

  -- A save that succeeds leaves the state as the file's content, for its owner alone.
  pub save_content :
      (a : Access) (state : AgentState) (disk disk' : Option StateFile)
      → save j a state disk ≡ (ok tt, disk')
      → disk' ≡ some (record { bytes = j.to_vec_pretty state; mode = owner_only })
  unfolding save path
  save_content a state disk disk' e =
      ground (arith, e, write_then_content a a.writing (j.to_vec_pretty state) disk disk')

  module _ (back : (s : AgentState) → j.from_slice (j.to_vec_pretty s) ≡ some s)
      (c : Primitives) where
    load_content :
        (a : Access) (keys : DeviceKeypair) (state : AgentState) (file : StateFile) (p : Str)
        → path a ≡ ok p
        → a.readable ≡ true
        → j.from_slice file.bytes ≡ some state
        → load_or_create j c a keys (some file) ≡ (ok state, some file)
    unfolding load_or_create read_state
    load_content a keys state file p here readable e = rw (load_or_create, here, readable, e)

    -- After a state was saved, the next command finds it, where the file can be read.
    pub load_or_create-save :
        (a later : Access) (keys : DeviceKeypair) (state : AgentState)
        (disk disk' : Option StateFile) (p : Str)
        → save j a state disk ≡ (ok tt, disk')
        → path later ≡ ok p
        → later.readable ≡ true
        → load_or_create j c later keys disk' ≡ (ok state, disk')
    load_or_create-save a later keys state disk disk' p e here readable =
        let content = save_content a state disk disk' e in
        rw content (
          load_content later keys state
            (record { bytes = j.to_vec_pretty state; mode = owner_only }) p here readable
            (back state))

    -- What is saved on creation is what is in the file.
    found-create :
        (a : Access) (r : Result Failure AgentState) (state : AgentState)
        (disk disk' : Option StateFile)
        → create j a r disk ≡ (ok state, disk')
        → (file : StateFile) × (disk' ≡ some file) × (j.from_slice file.bytes ≡ some state)
    found-create a (err x) state disk disk' e = absurd (ground (arith, e))
    found-create a (ok new) state disk disk' e = by_save (save j a new disk) refl
      where
        by_save :
            (q : Result Failure (Unit {0}) × Option StateFile)
            → save j a new disk ≡ q
            → (file : StateFile) × (disk' ≡ some file) × (j.from_slice file.bytes ≡ some state)
        by_save (err x, d) q = absurd (ground (arith, e, q))
        by_save (ok _, d) q =
            let same : new ≡ state = ground (arith, e, q) in
            (
              record { bytes = j.to_vec_pretty new; mode = owner_only },
              ground (arith, e, q, save_content a new disk d q),
              back new ∙ ap some same,
            )

    -- What was read, or written anew, is what is in the file.
    found :
        (a : Access) (keys : DeviceKeypair) (state : AgentState) (disk disk' : Option StateFile)
        → load_or_create j c a keys disk ≡ (ok state, disk')
        → (file : StateFile) × (disk' ≡ some file) × (j.from_slice file.bytes ≡ some state)
    unfolding load_or_create read_state path
    found a keys state (some file) disk' e = (file, ground (arith, e), ground (arith, e))
    found a keys state none disk' e =
        found-create a (created j c keys) state none disk' (ground (arith, e))

    -- Once a command has the state, read or new, a later one has the same, whatever new keys it would
    -- take, while the file can be read and no other command changes it. The JSON of each state is
    -- read back.
    pub load_or_create_stable :
        (a later : Access) (keys other : DeviceKeypair) (state : AgentState)
        (disk disk' : Option StateFile) (p : Str)
        → load_or_create j c a keys disk ≡ (ok state, disk')
        → path later ≡ ok p
        → later.readable ≡ true
        → load_or_create j c later other disk' ≡ (ok state, disk')
    load_or_create_stable a later keys other state disk disk' p e here readable =
        let (file, there, content) = found a keys state disk disk' e in
        rw there (load_content later other state file p here readable content)

-- The keys of a state: its private key makes the signatures that its public key verifies, and its
-- id is that key's.
pub record IsDevice (c : Primitives) (state : AgentState) : Type 0 where
  pub keys : DeviceKeypair
  pub restored : from_private_key_b64 c state.private_key ≡ ok keys
  pub public : state.public_key ≡ public_key_b64 c keys
  pub named : device_id_from_public_key c state.public_key ≡ ok state.device_id

created-create :
    (j : StateJson) (a : Access) (r : Result Failure AgentState) (state : AgentState)
    (disk disk' : Option StateFile)
    → create j a r disk ≡ (ok state, disk')
    → r ≡ ok state
created-create j a (err x) state disk disk' e = absurd (ground (arith, e))
created-create j a (ok new) state disk disk' e = ap ok (by_save (save j a new disk) refl)
  where
    by_save :
        (q : Result Failure (Unit {0}) × Option StateFile) → save j a new disk ≡ q → new ≡ state
    by_save (err x, d) q = absurd (ground (arith, e, q))
    by_save (ok _, d) q = ground (arith, e, q)

IsDevice-created :
    {c : Primitives} (j : StateJson) (lawful : IsLawful c) (keys : DeviceKeypair)
    (state : AgentState)
    → length keys.signing_key ≡ 32
    → created j c keys ≡ ok state
    → IsDevice c state × (state.trusted_clients ≡ [])
unfolding created device_id
IsDevice-created {c} j lawful keys state long e = by_id (device_id c keys) refl
  where
    by_id :
        (r : Result Failure Str)
        → device_id c keys ≡ r
        → IsDevice c state × (state.trusted_clients ≡ [])
    by_id (err x) q = absurd (ground (arith, e, q))
    by_id (ok id) q =
        let private : state.private_key ≡ private_key_b64 c keys = ground (arith, e, q) in
        let public : state.public_key ≡ public_key_b64 c keys = ground (arith, e, q) in
        let named : state.device_id ≡ id = ground (arith, e, q) in
        (
          record {
            keys = keys;
            restored = ap (from_private_key_b64 c) private ∙ restore-private_key lawful keys long;
            public = public;
            named = ap (device_id_from_public_key c) public ∙ (q ∙ ap ok (sym named));
          },
          ground (arith, e, q),
        )

-- With lawful primitives and a new private key of 32 bytes, a daemon that starts without a file, and
-- can save, becomes a device with the new keys and trusts nobody.
pub created-IsDevice :
    {c : Primitives} (j : StateJson) (lawful : IsLawful c) (a : Access) (keys : DeviceKeypair)
    (state : AgentState) (disk' : Option StateFile)
    → length keys.signing_key ≡ 32
    → load_or_create j c a keys none ≡ (ok state, disk')
    → IsDevice c state × (state.trusted_clients ≡ [])
unfolding load_or_create path
created-IsDevice {c} j lawful a keys state disk' long e =
    IsDevice-created j lawful keys state long
      (created-create j a (created j c keys) state none disk' (ground (arith, e)))
