-- ===== src/Cloud/Server/SingleUse.antt =====
-- A pairing code is used once (`approve_code` and `resolve_code` of components/cloud/src/pairing.rs).
use mathlib.Core.Option
use wisp_shell.Prelude.{
  subst, ◌≡◌, refl, ap, ◌≢◌, ◌⊎◌, inl, inr, true, false, Bool-cases, some, List, [], ◌∷◌, Str,
  str_eq, str_eq_iff, str_eq_refl, is_some, if◌then◌else◌, arith, ok, err, All,
}
use wisp_shell.Prelude.HashMap.{get, modify, get-insert, get-modify}
use wisp_shell.Protocol.ErrorCode.{pairing_used}
use wisp_shell.Protocol.Crypto.{Primitives}
use wisp_shell.Protocol.PairingHash.{pairing_code_hash}
use wisp_shell.Cloud.Db.{Time, Db, Binding, CodePairingSession}
use wisp_shell.Cloud.Store.Rows.{Codec}
use wisp_shell.Cloud.App.{AppState}
use wisp_shell.Cloud.Http.{rejection, conflict}
use wisp_shell.Cloud.Pairing.{Serde, revoke_existing_active_bindings}
use wisp_shell.Cloud.CodePairing.{
  ApproveCodePairingRequest, usable_session, check_approval, approve_code, resolve_code,
  record_approval,
}
use wisp_shell.Cloud.Server.Change.{
  Change, unchanged, device, pairing, code_pairing, presence, approval, code_approval, revocation,
  step-Change, renewed_hash, inner-approve_code,
}
use wisp_shell.Cloud.Server.{Request, step, run}

-- The code with this hash was used.
pub record IsUsed (db : Db) (code_hash : Str) : Type 0 where
  pub session : CodePairingSession
  pub found : get db.code_pairings code_hash ≡ some session
  pub used : is_some session.used_at ≡ true

recorded :
    (db : Db) (req : ApproveCodePairingRequest) (h : Str) (session : CodePairingSession)
    (used now : Time) (db' : Db)
    → get db.code_pairings h ≡ some session
    → db' ≡ record_approval db req h session used now
    → IsUsed db' h
unfolding record_approval revoke_existing_active_bindings
recorded db req h session used now db' found d =
    let m : db'.code_pairings
        ≡ modify db.code_pairings h (λ (p : CodePairingSession). record p { used_at = some used }) =
      ap (λ (x : Db). x.code_pairings) d in
    record {
      session = record session { used_at = some used };
      found = ground (
        arith,
        m,
        found,
        str_eq_refl h,
        get-modify db.code_pairings h h
            (λ (p : CodePairingSession). record p { used_at = some used }),
      );
      used = refl;
    }

module _ (c : Primitives) where
  hash-check_approval :
      (j : Serde) (db : Db) (req : ApproveCodePairingRequest) (checked : Time) (code_hash : Str)
      (session : CodePairingSession)
      → check_approval c j db req checked ≡ ok (code_hash, session)
      → (pairing_code_hash c req.code ≡ ok code_hash)
        × (get db.code_pairings code_hash ≡ some session)
  unfolding check_approval usable_session
  hash-check_approval j db req checked code_hash session e = ground arith

  approve_code-IsUsed :
      (k : Codec) (j : Serde) (s : AppState) (req : ApproveCodePairingRequest)
      (checked used now : Time) (v : Binding) (s' : AppState)
      → approve_code c k j s req checked used now ≡ ok (v, s')
      → (code_hash : Str) × (pairing_code_hash c req.code ≡ ok code_hash)
        × IsUsed s'.inner code_hash
  approve_code-IsUsed k j s req checked used now v s' e =
      let (h, session, p, b, d) = inner-approve_code c k j s req checked used now v s' e in
      let (hashed, found) = hash-check_approval j s.inner req checked h session p in
      (h, hashed, recorded s.inner req h session used now s'.inner found d)

  IsUsed-approve_code :
      (k : Codec) (j : Serde) (s : AppState) (req : ApproveCodePairingRequest)
      (checked used now : Time) (code_hash : Str)
      → pairing_code_hash c req.code ≡ ok code_hash
      → IsUsed s.inner code_hash
      → approve_code c k j s req checked used now ≡ err (rejection conflict pairing_used)
  unfolding approve_code check_approval usable_session
  IsUsed-approve_code k j s req checked used now code_hash hashed u =
      ground (arith, hashed, u.found, u.used)

  IsUsed-resolve_code :
      (s : AppState) (code : Str) (now : Time) (code_hash : Str)
      → pairing_code_hash c code ≡ ok code_hash
      → IsUsed s.inner code_hash
      → resolve_code c s code now ≡ err (rejection conflict pairing_used)
  unfolding resolve_code usable_session
  IsUsed-resolve_code s code now code_hash hashed u = ground (arith, hashed, u.found, u.used)

modify-IsUsed :
    (db db' : Db) (code_hash other : Str) (used : Time)
    → db'.code_pairings
      ≡ modify db.code_pairings other (λ (p : CodePairingSession). record p { used_at = some used })
    → IsUsed db code_hash
    → IsUsed db' code_hash
modify-IsUsed db db' code_hash other used m u = by_key (Bool-cases (str_eq other code_hash))
  where
    g : get db'.code_pairings code_hash ≡ (
        if str_eq other code_hash
        then Option.map
            (λ (p : CodePairingSession). record p { used_at = some used })
            (get db.code_pairings code_hash)
        else get db.code_pairings code_hash)
    g = rw m (
        get-modify db.code_pairings other code_hash
          (λ (p : CodePairingSession). record p { used_at = some used }))

    by_key :
        (str_eq other code_hash ≡ true) ⊎ (str_eq other code_hash ≡ false) → IsUsed db' code_hash
    by_key (inl e) = record {
      session = record (u.session) { used_at = some used };
      found = ground (arith, g, e, u.found);
      used = refl;
    }
    by_key (inr e) = record {
      session = u.session;
      found = ground (arith, g, e, u.found);
      used = u.used;
    }

-- A change keeps a used code used, unless it starts a session with the same hash again.
Change-IsUsed :
    {r : Request} {d d' : Db} (code_hash : Str)
    → Change r d d'
    → renewed_hash r ≢ some code_hash
    → IsUsed d code_hash
    → IsUsed d' code_hash
Change-IsUsed h unchanged other u = u
Change-IsUsed h (device v) other u = record { session = u.session; found = u.found; used = u.used }
Change-IsUsed h (pairing v) other u = record { session = u.session; found = u.found; used = u.used }
Change-IsUsed {d = d} h (code_pairing v new) other u = record {
  session = u.session;
  found = ground (
    arith,
    new,
    other,
    u.found,
    str_eq_iff v.code_hash h,
    get-insert d.code_pairings v.code_hash h v,
  );
  used = u.used;
}
Change-IsUsed h (presence v) other u = record {
  session = u.session;
  found = u.found;
  used = u.used;
}
Change-IsUsed h (approval pair_id now b) other u =
    unfold revoke_existing_active_bindings in
    record { session = u.session; found = u.found; used = u.used }
Change-IsUsed {d = d} h (code_approval req code_hash session used now) other u =
    unfold record_approval revoke_existing_active_bindings in
    modify-IsUsed d _ h code_hash used refl u
Change-IsUsed h (revocation binding_id now) other u = record {
  session = u.session;
  found = u.found;
  used = u.used;
}

module _ (c : Primitives) (k : Codec) (j : Serde) where
  run-IsUsed :
      (s : AppState) (rs : List Request) (code_hash : Str)
      → All (λ (r : Request). renewed_hash r ≢ some code_hash) rs
      → IsUsed s.inner code_hash
      → IsUsed (run c k j s rs).inner code_hash
  unfolding run
  run-IsUsed s [] h others u = u
  run-IsUsed s (r ∷ rs) h others u =
      run-IsUsed (step c k j s r) rs h others.1 (Change-IsUsed h (step-Change c k j s r) others.0 u)

  -- After a code was approved, and any requests of which none starts a session with this code's
  -- hash again, every further approval of a code with this hash is refused as used, and so is every
  -- attempt to resolve it.
  pub approve_code_once :
      (s s' : AppState) (req again : ApproveCodePairingRequest) (checked used now : Time)
      (checked' used' now' : Time) (v : Binding) (rs : List Request) (code_hash : Str)
      → approve_code c k j s req checked used now ≡ ok (v, s')
      → pairing_code_hash c req.code ≡ ok code_hash
      → pairing_code_hash c again.code ≡ ok code_hash
      → All (λ (r : Request). renewed_hash r ≢ some code_hash) rs
      → (approve_code c k j (run c k j s' rs) again checked' used' now'
          ≡ err (rejection conflict pairing_used))
        × (resolve_code c (run c k j s' rs) again.code now' ≡ err (rejection conflict pairing_used))
  approve_code_once s s' req again checked used now checked' used' now' v rs code_hash e hashed same
        others =
      let (h, hashed', u) = approve_code-IsUsed c k j s req checked used now v s' e in
      let u' : IsUsed s'.inner code_hash =
        subst (IsUsed s'.inner) (ground (arith, hashed, hashed')) u in
      let w = run-IsUsed s' rs code_hash others u' in
      (
        IsUsed-approve_code c k j (run c k j s' rs) again checked' used' now' code_hash same w,
        IsUsed-resolve_code c (run c k j s' rs) again.code now' code_hash same w,
      )
