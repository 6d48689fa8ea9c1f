-- ===== src/Gateway/Authentication/Revocation.antt =====
-- `revoke_key` and `rotate_key` of services/control_api/main.py against `authenticate` of
-- services/gateway/main.py.
use quiblyx.Common.{
  ℕ, ◌≡◌, ◌≢◌, refl, sym, ◌∙◌, ap, inl, inr, Bool, true, not, ◌&&◌, Option, none, some,
  Option-cases, List, [], ◌∷◌, arith, String, str_eq, ◌==◌, scalar, scalar_hit, or_raise-eq-ok, ok,
  Result-cases,
}
use quiblyx.Model.{Db, Key}
use quiblyx.Security.{authorize}
use quiblyx.Control.Common.{audit, authorized-eq-ok, key_of}
use quiblyx.Control.Keys.{revoke, revoke_key, revoke_key_body}
use quiblyx.Gateway.Authentication.{authenticate, bearer, check_account, live_key}

module _ (digest : String → String) where
  -- The query of `authenticate`.
  abbrev is_live : String → Key → Bool
  is_live secret k = str_eq k.digest (digest secret) && not k.revoked

  scalar-revoke :
      (secret : String) (id : ℕ) (rows : List Key) (y : Key)
      → scalar (is_live secret) (revoke id rows) ≡ some y
      → y.id ≢ id
  scalar-revoke secret id [] y e = absurd (ground arith)
  scalar-revoke secret id (x ∷ rows) y e = ground (arith, scalar-revoke secret id rows y)

  scalar-revoke_other :
      (secret : String) (id : ℕ) (rows : List Key) (y : Key)
      → scalar (is_live secret) rows ≡ some y
      → y.id ≢ id
      → scalar (is_live secret) (revoke id rows) ≡ some y
  scalar-revoke_other secret id [] y e ne = absurd (ground arith)
  scalar-revoke_other secret id (x ∷ rows) y e ne =
      ground (arith, scalar-revoke_other secret id rows y)

  authenticate-live :
      (db : Db) (auth : String) (x : ℕ × ℕ × ℕ)
      → authenticate digest db auth ≡ ok x
      → (k : Key) × (live_key digest db (bearer auth) ≡ some k)
        × (check_account db k.tenant_id k.service_account_id ≡ ok tt)
        × (x ≡ (k.tenant_id, k.id, k.application_id))
  unfolding authenticate
  authenticate-live db auth x e = elim (Option-cases (live_key digest db (bearer auth))) [
    | inl missing ↦ absurd (ground arith)
    | inr (k, found) ↦ elim (Result-cases (check_account db k.tenant_id k.service_account_id)) [
      | inl (_, failed) ↦ absurd (ground arith)
      | inr (tt, passed) ↦ (k, found, passed, ground arith)
    ]
  ]

  live-authenticate :
      (db : Db) (auth : String) (k : Key)
      → live_key digest db (bearer auth) ≡ some k
      → check_account db k.tenant_id k.service_account_id ≡ ok tt
      → authenticate digest db auth ≡ ok (k.tenant_id, k.id, k.application_id)
  unfolding authenticate
  live-authenticate db auth k found passed = rw (found, passed) refl

  -- What the revocation of a key writes.
  record IsRevoked (id : ℕ) (db db' : Db) : Type 0 where
    keys : db'.keys ≡ revoke id db.keys
    accounts : (t : ℕ) (a : Option ℕ) → check_account db' t a ≡ check_account db t a

  revoke_key_body-IsRevoked :
      (t id : ℕ) (subject : String) (b : Bool) (db db' : Db)
      → revoke_key_body t id subject db ≡ ok (b, db')
      → IsRevoked id db db'
  unfolding revoke_key_body check_account
  revoke_key_body-IsRevoked t id subject b db db' e = elim (Result-cases (key_of db t id)) [
    | inl (_, failed) ↦ absurd (ground arith)
    | inr (k, found) ↦
        let made : db'
            ≡ audit t subject "key.revoked" k.id (record db { keys = revoke k.id db.keys }) =
          ground arith in
        let same : k.id ≡ id = found_id k found in
        record {
          keys = ap (λ d. d.keys) made ∙ ap (λ i. revoke i db.keys) same;
          accounts = λ t a. ap (λ d. check_account d t a) made;
        }
  ]
    where
      found_id : (k : Key) → key_of db t id ≡ ok k → k.id ≡ id
      found_id k found = ground (
        arith,
        scalar_hit (λ r. (r.tenant_id == t) && (r.id == id)) db.keys k (or_raise-eq-ok _ _ found),
      )

  -- From its revocation on, no secret authenticates as the key; every caller that authenticates
  -- as another key still does, with the same tenant, key and application.
  pub revoke_key-IsEffective :
      (t id : ℕ) (subject : String) (b : Bool) (db db' : Db)
      → revoke_key t id subject db ≡ (ok b, db')
      → ((auth : String) (x : ℕ × ℕ × ℕ) → authenticate digest db' auth ≡ ok x → x.1 ≢ id)
        × ((auth : String) (x : ℕ × ℕ × ℕ)
            → authenticate digest db auth ≡ ok x
            → x.1 ≢ id
            → authenticate digest db' auth ≡ ok x)
  unfolding revoke_key
  revoke_key-IsEffective t id subject b db db' e =
      let (role, permitted, done) =
        authorized-eq-ok (authorize db t subject true none none) (λ _. revoke_key_body t id subject)
          db b db' e in
      let r = revoke_key_body-IsRevoked t id subject b db db' done in
      (
        λ auth x seen.
            let (k, found, passed, same) = authenticate-live db' auth x seen in
            rw same (
              scalar-revoke (bearer auth) id db.keys k
                (ap (scalar (is_live (bearer auth))) (sym r.keys) ∙ found)),
        λ auth x seen ne.
            let (k, found, passed, same) = authenticate-live db auth x seen in
            live-authenticate db' auth k
              (ap (scalar (is_live (bearer auth))) r.keys
                ∙ scalar-revoke_other (bearer auth) id db.keys k found
                    (λ h. ne (ap (λ y. y.1) same ∙ h)))
              (r.accounts k.tenant_id k.service_account_id ∙ passed)
            ∙ ap ok (sym same),
      )
