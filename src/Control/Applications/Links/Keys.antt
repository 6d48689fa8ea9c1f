-- ===== src/Control/Applications/Links/Keys.antt =====
-- `create_key`, `rotate_key` and `revoke_key` of services/control_api/main.py keep the references
-- of every row.
use quiblyx.Common.{
  ℕ, ◌≡◌, refl, ◌∙◌, ap, subst, inl, inr, Bool, true, ◌&&◌, Option, none, some, List, [], ◌∷◌,
  arith, String, ◌==◌, ==_refl, ==_iff, &&_true, if_intro, All-map, All-update, any, scalar,
  scalar-All, scalar_hit, ok, Result-cases, or_raise-eq-ok,
}
use quiblyx.Model.{Db, Application, ServiceAccount, Key}
use quiblyx.Security.{authorize}
use quiblyx.Control.Common.{audit, application_of, key_of, service_account_of}
use quiblyx.Control.Keys.{
  KeyInput, choose_account, create_key_body, new_key, new_service_account, revoke, revoke_key_body,
  rotate_key_body,
}
use quiblyx.Control.Applications.Links.{AreLinked, is_application, is_served, is_served-cons}

-- What the choice of a service account guarantees.
record IsChosen (uid t : ℕ) (a : Application) (s : ServiceAccount) (db db' : Db) : Type 0 where
  linked : AreLinked db'
  same_applications : db'.applications ≡ db.applications
  served : is_served db'.service_accounts t a.id (some s.id) ≡ true

found_account :
    (t id application : ℕ) (rows : List ServiceAccount) (s : ServiceAccount)
    → scalar (λ r. (r.tenant_id == t) && (r.id == id)) rows ≡ some s
    → (s.application_id == application) ≡ true
    → any (λ r. (r.tenant_id == t) && (r.id == s.id) && (r.application_id == application)) rows
      ≡ true
found_account t id application [] s found same = absurd (ground arith)
found_account t id application (y ∷ rows) s found same =
    ground (arith, found_account t id application rows s, ==_refl y.id)

choose_account-IsChosen :
    (uid t : ℕ) (a : Application) (o : Option ℕ) (s : ServiceAccount) (db db' : Db)
    → AreLinked db
    → any (is_application t a.id) db.applications ≡ true
    → choose_account uid t a o db ≡ ok (s, db')
    → IsChosen uid t a s db db'
unfolding choose_account
choose_account-IsChosen uid t a (some id) s db db' h owner e =
    elim (Result-cases (service_account_of db t id)) [
      | inl (_, failed) ↦ absurd (ground arith)
      | inr (y, found) ↦
          let same : db ≡ db' = ground arith in
          let chosen : y ≡ s = ground arith in
          let mine : (y.application_id == a.id) ≡ true = ground arith in
          let served =
            found_account t id a.id db.service_accounts y (or_raise-eq-ok _ _ found) mine in
          subst (IsChosen uid t a s db) same (record {
            linked = h;
            same_applications = refl;
            served =
                subst (λ x. is_served db.service_accounts t a.id (some x.id) ≡ true) chosen served;
          })
    ]
choose_account-IsChosen uid t a none s db db' h owner e =
    let made : record db { service_accounts = new_service_account uid t a ∷ db.service_accounts }
        ≡ db' =
      ground arith in
    let chosen : new_service_account uid t a ≡ s = ground arith in
    subst (IsChosen uid t a s db) made (record {
      linked = record {
        connected = h.connected;
        billed = h.billed;
        owned = (owner, h.owned);
        served =
            All-map _ _ db.keys
              (λ k w.
                is_served-cons (new_service_account uid t a) db.service_accounts k.tenant_id
                  k.application_id k.service_account_id w)
              h.served;
        keyed = h.keyed;
      };
      same_applications = refl;
      served =
          subst
            (λ (x : ServiceAccount).
              is_served (new_service_account uid t a ∷ db.service_accounts) t a.id (some x.id)
              ≡ true)
            chosen (rw (==_refl t, ==_refl uid, ==_refl a.id) refl);
    })

-- A key more, whose references are checked.
key_added-AreLinked :
    (k : Key) (db : Db)
    → AreLinked db
    → is_served db.service_accounts k.tenant_id k.application_id k.service_account_id ≡ true
    → any (is_application k.tenant_id k.application_id) db.applications ≡ true
    → AreLinked (record db { keys = k ∷ db.keys })
key_added-AreLinked k db h served keyed = record {
  connected = h.connected;
  billed = h.billed;
  owned = h.owned;
  served = (served, h.served);
  keyed = (keyed, h.keyed);
}

-- A revocation leaves the references of the key.
revoke-AreLinked :
    (id : ℕ) (db : Db) → AreLinked db → AreLinked (record db { keys = revoke id db.keys })
revoke-AreLinked id db h = record {
  connected = h.connected;
  billed = h.billed;
  owned = h.owned;
  served =
      All-update _ _ (λ k. k.id == id) (λ k. record k { revoked = true }) db.keys
        (λ k w.
          if_intro
            (λ (y : Key).
              is_served db.service_accounts y.tenant_id y.application_id y.service_account_id
              ≡ true)
            (k.id == id) (λ _. w) (λ _. w))
        h.served;
  keyed =
      All-update _ _ (λ k. k.id == id) (λ k. record k { revoked = true }) db.keys
        (λ k w.
          if_intro
            (λ (y : Key). any (is_application y.tenant_id y.application_id) db.applications ≡ true)
            (k.id == id) (λ _. w) (λ _. w))
        h.keyed;
}

audit-AreLinked :
    (t : ℕ) (subject action : String) (target : ℕ) (db : Db)
    → AreLinked db
    → AreLinked (audit t subject action target db)
audit-AreLinked t subject action target db h = record {
  connected = h.connected;
  billed = h.billed;
  owned = h.owned;
  served = h.served;
  keyed = h.keyed;
}

found_application :
    (t id : ℕ) (rows : List Application) (a : Application)
    → scalar (λ r. (r.tenant_id == t) && (r.id == id)) rows ≡ some a
    → any (is_application t a.id) rows ≡ true
found_application t id [] a found = absurd (ground arith)
found_application t id (y ∷ rows) a found =
    ground (arith, found_application t id rows a, ==_refl y.id)

pub create_key_body-AreLinked :
    (digest : String → String) (uid account_uid t : ℕ) (input : KeyInput) (secret subject : String)
    (k : Key) (db db' : Db)
    → AreLinked db
    → create_key_body digest uid account_uid t input secret subject db ≡ ok (k, db')
    → AreLinked db'
unfolding create_key_body
create_key_body-AreLinked digest uid account_uid t input secret subject k db db' h done =
    elim (Result-cases (application_of db t input.application_id)) [
      | inl (_, failed) ↦ absurd (ground arith)
      | inr (a, found) ↦ elim (Result-cases (authorize db t subject true a.group_id none)) [
        | inl (_, failed) ↦ absurd (ground arith)
        | inr (role, permitted) ↦
            elim (Result-cases (choose_account account_uid t a input.service_account_id db)) [
              | inl (_, failed) ↦ absurd (ground arith)
              | inr (chosen, chose) ↦
                  let made : audit t subject "key.issued" uid (record chosen.1 {
                    keys = new_key digest uid t a.id (some chosen.0.id) secret ∷ chosen.1.keys;
                  })
                      ≡ db' =
                    ground arith in
                  let owner =
                    found_application t input.application_id db.applications a
                      (or_raise-eq-ok _ _ found) in
                  let c =
                    choose_account-IsChosen account_uid t a input.service_account_id chosen.0 db
                      chosen.1 h owner chose in
                  subst AreLinked made (
                    audit-AreLinked t subject "key.issued" uid _ (
                      key_added-AreLinked (new_key digest uid t a.id (some chosen.0.id) secret)
                        chosen.1 c.linked c.served
                        (ap (any (is_application t a.id)) c.same_applications ∙ owner)))
            ]
      ]
    ]

pub revoke_key_body-AreLinked :
    (t id : ℕ) (subject : String) (b : Bool) (db db' : Db)
    → AreLinked db
    → revoke_key_body t id subject db ≡ ok (b, db')
    → AreLinked db'
unfolding revoke_key_body
revoke_key_body-AreLinked t id subject b db db' h done = elim (Result-cases (key_of db t id)) [
  | inl (_, failed) ↦ absurd (ground arith)
  | inr (k, found) ↦
      let made : audit t subject "key.revoked" k.id (record db { keys = revoke k.id db.keys })
          ≡ db' =
        ground arith in
      subst AreLinked made
        (audit-AreLinked t subject "key.revoked" k.id _ (revoke-AreLinked k.id db h))
]

-- The new key takes over the old key's application and account.
pub rotate_key_body-AreLinked :
    (digest : String → String) (uid t id : ℕ) (secret subject : String) (k : Key) (db db' : Db)
    → AreLinked db
    → rotate_key_body digest uid t id secret subject db ≡ ok (k, db')
    → AreLinked db'
unfolding rotate_key_body
rotate_key_body-AreLinked digest uid t id secret subject k db db' h done =
    elim (Result-cases (key_of db t id)) [
      | inl (_, failed) ↦ absurd (ground arith)
      | inr (old, found) ↦
          let new = new_key digest uid t old.application_id old.service_account_id secret in
          let made : audit t subject "key.rotated" uid (record db {
            keys =
                new_key digest uid t old.application_id old.service_account_id secret
                ∷ revoke old.id db.keys;
          })
              ≡ db' =
            ground arith in
          let at = or_raise-eq-ok _ _ found in
          let served = (scalar-All _ _ db.keys old h.served at).0 in
          let keyed = (scalar-All _ _ db.keys old h.keyed at).0 in
          let mine : old.tenant_id ≡ t =
            (==_iff old.tenant_id t).0 (&&_true _ (old.id == id) (scalar_hit _ db.keys old at)).0 in
          subst AreLinked made (
            audit-AreLinked t subject "key.rotated" uid _ (
              key_added-AreLinked new (record db { keys = revoke old.id db.keys })
                (revoke-AreLinked old.id db h)
                (subst
                  (λ x.
                    is_served db.service_accounts x old.application_id old.service_account_id
                    ≡ true)
                  mine served)
                (subst (λ x. any (is_application x old.application_id) db.applications ≡ true) mine
                  keyed)))
    ]
