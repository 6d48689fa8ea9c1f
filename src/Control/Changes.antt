-- ===== src/Control/Changes.antt =====
-- Histories of the handlers of services/control_api/main.py that create and change applications,
-- projects, connections, service accounts and keys, by whatever subjects.
use quiblyx.Common.{ℕ, Bool, true, Option, none, List, [], ◌∷◌, String}
use quiblyx.Model.{Db}
use quiblyx.Security.{authorize}
use quiblyx.Control.Common.{authorized-keeps}
use quiblyx.Control.Applications.{
  ProviderInput, ApplicationInput, create_connection, create_connection_body, create_application,
  create_application_body, pause, pause_body, create_project, create_project_body,
  create_service_account, create_service_account_body,
}
use quiblyx.Control.Keys.{
  KeyInput, create_key, create_key_body, revoke_key, revoke_key_body, rotate_key, rotate_key_body,
}
use quiblyx.Control.Applications.Links.{
  AreLinked, create_connection_body-AreLinked, create_project_body-AreLinked,
  create_service_account_body-AreLinked, create_application_body-AreLinked, pause_body-AreLinked,
}
use quiblyx.Control.Applications.Links.Keys.{
  create_key_body-AreLinked, revoke_key_body-AreLinked, rotate_key_body-AreLinked,
}
use quiblyx.Model.{transaction-keeps}

pub data Change : Type 0 where
  connects : (uid tenant : ℕ) (input : ProviderInput) (subject : String) → Change
  adds_project : (uid tenant : ℕ) (name : String) (parent : Option ℕ) (subject : String) → Change
  adds_application : (uid tenant : ℕ) (input : ApplicationInput) (subject : String) → Change
  pauses : (tenant application_id : ℕ) (paused : Bool) (subject : String) → Change
  adds_account : (uid tenant : ℕ) (name : String) (application_id : ℕ) (subject : String) → Change
  issues_key : (uid account_uid tenant : ℕ) (input : KeyInput) (secret subject : String) → Change
  rotates_key : (uid tenant key_id : ℕ) (secret subject : String) → Change
  revokes_key : (tenant key_id : ℕ) (subject : String) → Change

module _ (encrypt digest : String → String) where
  -- The database after a handler, whatever it answers.
  unfoldable pub changed : Change → Db → Db
  changed (connects uid t input subject) db = (create_connection encrypt uid t input subject db).1
  changed (adds_project uid t name parent subject) db =
      (create_project uid t name parent subject db).1
  changed (adds_application uid t input subject) db = (create_application uid t input subject db).1
  changed (pauses t id paused subject) db = (pause t id paused subject db).1
  changed (adds_account uid t name application subject) db =
      (create_service_account uid t name application subject db).1
  changed (issues_key uid account_uid t input secret subject) db =
      (create_key digest uid account_uid t input secret subject db).1
  changed (rotates_key uid t id secret subject) db =
      (rotate_key digest uid t id secret subject db).1
  changed (revokes_key t id subject) db = (revoke_key t id subject db).1

  unfoldable pub changed_all : List Change → Db → Db
  unfolding changed
  changed_all [] db = db
  changed_all (c ∷ cs) db = changed_all cs (changed c db)

  changed-AreLinked : (c : Change) (db : Db) → AreLinked db → AreLinked (changed c db)
  unfolding changed create_connection create_project create_application pause create_service_account
      create_key rotate_key revoke_key
  changed-AreLinked (connects uid t input subject) db h =
      authorized-keeps AreLinked (authorize db t subject true none none)
        (λ _. create_connection_body encrypt uid t input subject) db h
        λ role x db' permitted done.
          create_connection_body-AreLinked encrypt uid t input subject x db db' h done
  changed-AreLinked (adds_project uid t name parent subject) db h =
      authorized-keeps AreLinked (authorize db t subject true parent none)
        (λ _. create_project_body uid t name parent subject) db h
        λ role x db' permitted done.
          create_project_body-AreLinked uid t name parent subject x db db' h done
  changed-AreLinked (adds_application uid t input subject) db h =
      authorized-keeps AreLinked (authorize db t subject true input.group_id none)
        (λ _. create_application_body uid t input subject) db h
        λ role x db' permitted done.
          create_application_body-AreLinked uid t input subject x db db' h done
  changed-AreLinked (pauses t id paused subject) db h =
      authorized-keeps AreLinked (authorize db t subject true none none)
        (λ _. pause_body t id paused subject) db h
        λ role x db' permitted done. pause_body-AreLinked t id paused subject x db db' h done
  changed-AreLinked (adds_account uid t name application subject) db h =
      authorized-keeps AreLinked (authorize db t subject true none none)
        (λ _. create_service_account_body uid t name application subject) db h
        λ role x db' permitted done.
          create_service_account_body-AreLinked uid t name application subject x db db' h done
  changed-AreLinked (issues_key uid account_uid t input secret subject) db h =
      transaction-keeps AreLinked (create_key_body digest uid account_uid t input secret subject) db
        h
        λ k db' done.
          create_key_body-AreLinked digest uid account_uid t input secret subject k db db' h done
  changed-AreLinked (rotates_key uid t id secret subject) db h =
      authorized-keeps AreLinked (authorize db t subject true none none)
        (λ _. rotate_key_body digest uid t id secret subject) db h
        λ role k db' permitted done.
          rotate_key_body-AreLinked digest uid t id secret subject k db db' h done
  changed-AreLinked (revokes_key t id subject) db h =
      authorized-keeps AreLinked (authorize db t subject true none none)
        (λ _. revoke_key_body t id subject) db h
        λ role b db' permitted done. revoke_key_body-AreLinked t id subject b db db' h done

  -- Whatever these handlers are asked by whomever, every application keeps a connection of its
  -- tenant and is billed, through its project, to its own group; every service account and every
  -- key belongs to an application of its tenant; and a key's service account is one of that
  -- application.
  pub changed_all-AreLinked :
      (cs : List Change) (db : Db) → AreLinked db → AreLinked (changed_all cs db)
  unfolding changed_all
  changed_all-AreLinked [] db h = h
  changed_all-AreLinked (c ∷ cs) db h =
      changed_all-AreLinked cs (changed c db) (changed-AreLinked c db h)
