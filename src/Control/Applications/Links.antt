-- ===== src/Control/Applications/Links.antt =====
-- The handlers of services/control_api/main.py that create applications, projects, connections,
-- service accounts and keys: every reference of a row leads to a row of the same tenant.
pub mod Keys
use quiblyx.Common.{
  ℕ, ◌≡◌, refl, sym, ◌∙◌, ap, subst, inl, inr, Bool, true, false, not, ◌&&◌, Bool-cases, Option,
  none, some, Option-cases, List, [], ◌∷◌, arith, String, opt_eq, ◌==◌, ==_refl, ==_iff,
  if◌then◌else◌, All, All-map, All-update, any, any-cons, any-update, scalar, scalar-All,
  scalar-any, scalar_hit, Result, ok, err, http, ok-state, Result-cases, or_raise-eq-ok, >>=-eq-ok,
  if_intro, update,
}
use quiblyx.Model.{Db, Application, Connection, Project, ServiceAccount, Key}
use quiblyx.Hierarchy.{ancestry}
use quiblyx.Control.Common.{audit, authorized-keeps, application_of, connection_of, project_of}
use quiblyx.Control.Applications.{
  ProviderInput, ApplicationInput, new_connection, create_connection, create_connection_body,
  check_project, new_application, create_application, create_application_body, pause, pause_body,
  new_project, create_project, create_project_body, new_account, create_service_account,
  create_service_account_body,
}

-- The connection of the application is the tenant's.
abbrev pub is_connected : List Connection → Application → Bool
is_connected connections a =
    any (λ c. (c.tenant_id == a.tenant_id) && (c.id == a.connection_id)) connections

-- The project of the application, if it has one, is the tenant's and is billed to its group.
abbrev pub is_billed : List Project → (tenant : ℕ) → Option ℕ → Option ℕ → Bool
is_billed projects tenant group none = true
is_billed projects tenant group (some project) =
    any (λ p. (p.tenant_id == tenant) && (p.id == project) && opt_eq p.group_id group) projects

abbrev pub is_application : (tenant id : ℕ) → Application → Bool
is_application tenant id a = (a.tenant_id == tenant) && (a.id == id)

-- The service account of a key, if it has one, is the tenant's and the application's.
abbrev pub is_served : List ServiceAccount → (tenant application : ℕ) → Option ℕ → Bool
is_served accounts tenant application none = true
is_served accounts tenant application (some account) =
    any (λ s. (s.tenant_id == tenant) && (s.id == account) && (s.application_id == application))
      accounts

pub record AreLinked (db : Db) : Type 0 where
  pub connected : All (λ a. is_connected db.connections a ≡ true) db.applications
  pub billed :
      All (λ a. is_billed db.projects a.tenant_id a.group_id a.project_id ≡ true) db.applications
  pub owned :
      All
        (λ s. any (is_application s.tenant_id s.application_id) db.applications ≡ true)
        db.service_accounts
  pub served :
      All
        (λ k.
          is_served db.service_accounts k.tenant_id k.application_id k.service_account_id ≡ true)
        db.keys
  pub keyed :
      All (λ k. any (is_application k.tenant_id k.application_id) db.applications ≡ true) db.keys

-- A row more in a table leaves the references into it.
is_billed-cons :
    (x : Project) (projects : List Project) (t : ℕ) (g o : Option ℕ)
    → is_billed projects t g o ≡ true
    → is_billed (x ∷ projects) t g o ≡ true
is_billed-cons x projects t g none h = refl
is_billed-cons x projects t g (some p) h = any-cons _ x projects h

is_served-cons :
    (x : ServiceAccount) (accounts : List ServiceAccount) (t a : ℕ) (o : Option ℕ)
    → is_served accounts t a o ≡ true
    → is_served (x ∷ accounts) t a o ≡ true
is_served-cons x accounts t a none h = refl
is_served-cons x accounts t a (some s) h = any-cons _ x accounts h

pub create_connection_body-AreLinked :
    (encrypt : String → String) (uid t : ℕ) (input : ProviderInput) (subject : String)
    (x : Connection) (db db' : Db)
    → AreLinked db
    → create_connection_body encrypt uid t input subject db ≡ ok (x, db')
    → AreLinked db'
unfolding create_connection_body
create_connection_body-AreLinked encrypt uid t input subject x db db' h done =
    let made : audit t subject "provider.created" uid
          (record db { connections = new_connection encrypt uid t input ∷ db.connections })
        ≡ db' =
      ground arith in
    subst AreLinked made (record {
      connected =
          All-map _ _ db.applications
            (λ a c. any-cons _ (new_connection encrypt uid t input) db.connections c) h.connected;
      billed = h.billed;
      owned = h.owned;
      served = h.served;
      keyed = h.keyed;
    })

pub create_project_body-AreLinked :
    (uid t : ℕ) (name : String) (parent : Option ℕ) (subject : String) (x : Project) (db db' : Db)
    → AreLinked db
    → create_project_body uid t name parent subject db ≡ ok (x, db')
    → AreLinked db'
unfolding create_project_body
create_project_body-AreLinked uid t name parent subject x db db' h done =
    elim (Result-cases (ancestry db t parent true)) [
      | inl (_, failed) ↦ absurd (ground arith)
      | inr (path, climbed) ↦
          let made : audit t subject "project.created" uid
                (record db { projects = new_project uid t name parent ∷ db.projects })
              ≡ db' =
            ground arith in
          subst AreLinked made (record {
            connected = h.connected;
            billed =
                All-map _ _ db.applications
                  (λ a b.
                    is_billed-cons (new_project uid t name parent) db.projects a.tenant_id
                      a.group_id a.project_id b)
                  h.billed;
            owned = h.owned;
            served = h.served;
            keyed = h.keyed;
          })
    ]

pub create_service_account_body-AreLinked :
    (uid t : ℕ) (name : String) (application_id : ℕ) (subject : String) (x : ServiceAccount)
    (db db' : Db)
    → AreLinked db
    → create_service_account_body uid t name application_id subject db ≡ ok (x, db')
    → AreLinked db'
unfolding create_service_account_body
create_service_account_body-AreLinked uid t name application_id subject x db db' h done =
    elim (Result-cases (application_of db t application_id)) [
      | inl (_, failed) ↦ absurd (ground arith)
      | inr (a, found) ↦
          let made : audit t subject "service_account.created" uid (record db {
            service_accounts = new_account uid t name application_id ∷ db.service_accounts;
          })
              ≡ db' =
            ground arith in
          subst AreLinked made (record {
            connected = h.connected;
            billed = h.billed;
            owned = (scalar-any _ db.applications a (or_raise-eq-ok _ _ found), h.owned);
            served =
                All-map _ _ db.keys
                  (λ k s.
                    is_served-cons (new_account uid t name application_id) db.service_accounts
                      k.tenant_id k.application_id k.service_account_id s)
                  h.served;
            keyed = h.keyed;
          })
    ]

check_project-is_billed :
    (db : Db) (t : ℕ) (input : ApplicationInput) (o : Option ℕ)
    → check_project db t input o ≡ ok tt
    → is_billed db.projects t input.group_id o ≡ true
unfolding check_project
check_project-is_billed db t input none e = refl
check_project-is_billed db t input (some p) e = elim (Result-cases (project_of db t p)) [
  | inl (_, failed) ↦ absurd (ground arith)
  | inr (project, found) ↦ billed db.projects project (or_raise-eq-ok _ _ found) (ground arith)
]
  where
    billed :
        (rows : List Project) (x : Project)
        → scalar (λ r. (r.tenant_id == t) && (r.id == p)) rows ≡ some x
        → opt_eq x.group_id input.group_id ≡ true
        → is_billed rows t input.group_id (some p) ≡ true
    billed [] x found same = absurd (ground arith)
    billed (y ∷ rows) x found same = ground (arith, billed rows x)

pub create_application_body-AreLinked :
    (uid t : ℕ) (input : ApplicationInput) (subject : String) (x : Application) (db db' : Db)
    → AreLinked db
    → create_application_body uid t input subject db ≡ ok (x, db')
    → AreLinked db'
unfolding create_application_body
create_application_body-AreLinked uid t input subject x db db' h done =
    elim (Result-cases (ancestry db t input.group_id true)) [
      | inl (_, failed) ↦ absurd (ground arith)
      | inr (path, climbed) ↦ elim (Result-cases (connection_of db t input.connection_id)) [
        | inl (_, failed) ↦ absurd (ground arith)
        | inr (c, found) ↦ elim (Result-cases (check_project db t input input.project_id)) [
          | inl (_, failed) ↦ absurd (ground arith)
          | inr (tt, billed) ↦
              let made : audit t subject "application.created" uid
                    (record db { applications = new_application uid t input ∷ db.applications })
                  ≡ db' =
                ground arith in
              subst AreLinked made (record {
                connected = (scalar-any _ db.connections c (or_raise-eq-ok _ _ found), h.connected);
                billed = (check_project-is_billed db t input input.project_id billed, h.billed);
                owned =
                    All-map _ _ db.service_accounts
                      (λ s o. any-cons _ (new_application uid t input) db.applications o) h.owned;
                served = h.served;
                keyed =
                    All-map _ _ db.keys
                      (λ k o. any-cons _ (new_application uid t input) db.applications o) h.keyed;
              })
        ]
      ]
    ]

pub pause_body-AreLinked :
    (t application_id : ℕ) (paused : Bool) (subject : String) (x : Application) (db db' : Db)
    → AreLinked db
    → pause_body t application_id paused subject db ≡ ok (x, db')
    → AreLinked db'
unfolding pause_body
pause_body-AreLinked t application_id paused subject x db db' h done =
    elim (Result-cases (application_of db t application_id)) [
      | inl (_, failed) ↦ absurd (ground arith)
      | inr (a, found) ↦
          let made : audit t subject "application.pause_changed" a.id (record db {
            applications =
                update (λ r. r.id == a.id) (λ r. record r { paused = paused }) db.applications;
          })
              ≡ db' =
            ground arith in
          subst AreLinked made (record {
            connected =
                All-update _ _ (λ r. r.id == a.id) (λ r. record r { paused = paused })
                  db.applications
                  (λ r c.
                    if_intro (λ (y : Application). is_connected db.connections y ≡ true)
                      (r.id == a.id) (λ _. c) (λ _. c))
                  h.connected;
            billed =
                All-update _ _ (λ r. r.id == a.id) (λ r. record r { paused = paused })
                  db.applications
                  (λ r c.
                    if_intro
                      (λ (y : Application).
                        is_billed db.projects y.tenant_id y.group_id y.project_id ≡ true)
                      (r.id == a.id) (λ _. c) (λ _. c))
                  h.billed;
            owned =
                All-map _ _ db.service_accounts
                  (λ s o.
                    any-update (is_application s.tenant_id s.application_id) (λ r. r.id == a.id)
                      (λ r. record r { paused = paused }) db.applications (λ r. refl)
                    ∙ o)
                  h.owned;
            served = h.served;
            keyed =
                All-map _ _ db.keys
                  (λ k o.
                    any-update (is_application k.tenant_id k.application_id) (λ r. r.id == a.id)
                      (λ r. record r { paused = paused }) db.applications (λ r. refl)
                    ∙ o)
                  h.keyed;
          })
    ]
