-- ===== src/Examples/Changes.antt =====
-- Applications, keys and roles at the example organisation.
use quiblyx.Common.{
  ◌≡◌, refl, true, false, none, some, List, [], ◌∷◌, String, ok, err, http, map, if◌then◌else◌, all,
}
use quiblyx.Model.{Db, Membership, Role, RoleName, Permission}
use quiblyx.Hierarchy.{ancestry, climb}
use quiblyx.Security.{authorize, check_scope, member_at}
use quiblyx.Control.Applications.{
  create_application, create_connection, create_project, check_project,
}
use quiblyx.Control.Applications.Links.{AreLinked}
use quiblyx.Control.Keys.{choose_account, create_key, rotate_key}
use quiblyx.Control.Changes.{Change, changed_all, changed_all-AreLinked}
use quiblyx.Control.Roles.{RoleInput, create_role, is_known, is_listed, permission_name}
use quiblyx.Control.Roles.Grants.{create_role-authorize}
use quiblyx.Examples.{start}

abbrev plain : String → String
plain secret = secret

abbrev bare : Db
bare = record start { applications = []; keys = [] }

bare-AreLinked : AreLinked bare
bare-AreLinked = record { connected = tt; billed = tt; owned = tt; served = tt; keyed = tt }

abbrev steps : List Change
steps =
    Change.connects 40 1 (record { name = "mock"; provider = "mock"; secret = "" }) "ada"
    ∷ Change.adds_project 41 1 "pilot" (some 11) "ada"
    ∷ Change.adds_application 42 1
        (record { name = "desk"; group_id = some 11; connection_id = 40; project_id = some 41 })
        "ada"
    ∷ Change.issues_key 43 44 1 (record { application_id = 42; service_account_id = none })
        "vk_secret_of_desk" "ada"
    ∷ Change.rotates_key 45 1 43 "vk_second_secret" "ada"
    ∷ []

steps_run : map (λ k. k.revoked) (changed_all plain plain steps bare).keys ≡ false ∷ true ∷ []
unfolding changed_all authorize check_scope ancestry climb create_application create_key
    create_connection create_project rotate_key choose_account check_project
steps_run = refl

changed_all-AreLinked_example : AreLinked (changed_all plain plain steps bare)
changed_all-AreLinked_example = changed_all-AreLinked plain plain steps bare bare-AreLinked

abbrev reviewer : RoleInput
reviewer = record { name = "reviewer"; permissions = "write" ∷ "read" ∷ "read" ∷ [] }

abbrev eve : Membership
eve = record { id = 53; tenant_id = 1; subject = "eve"; role = RoleName.custom 60; scope_id = none }

abbrev hired : Db
hired = record start { memberships = eve ∷ start.memberships }

abbrev reviewer_row : Role
reviewer_row = record {
  id = 60;
  tenant_id = 1;
  name = "reviewer";
  permissions = Permission.read ∷ Permission.write ∷ [];
}

abbrev reviewed : Db
reviewed = (create_role 60 1 reviewer "ada" hired).1

create_role_runs : create_role 60 1 reviewer "ada" hired ≡ (ok reviewer_row, reviewed)
unfolding create_role authorize check_scope
create_role_runs = refl

eve_found : member_at reviewed 1 "eve" ≡ some eve
unfolding create_role authorize check_scope
eve_found = refl

create_role-authorize_example :
    (all is_known reviewer.permissions ≡ true)
    × (authorize reviewed 1 "eve" false none (some Permission.write) ≡ (
        if is_listed (permission_name Permission.write) reviewer.permissions
        then ok (RoleName.custom 60)
        else err (http 403 "permission_denied")))
create_role-authorize_example =
    create_role-authorize 60 1 reviewer "ada" "eve" reviewer_row eve Permission.write hired reviewed
      create_role_runs eve_found refl refl
