-- ===== src/Control/Roles.antt =====
-- services/control_api/main.py, `create_role`: a custom role and its permissions, by name.
pub mod Grants
use quiblyx.Common.{
  ℕ, Bool, true, false, not, ◌&&◌, ◌||◌, List, [], ◌∷◌, String, str_eq, ◌==◌, select, any, all,
  Option, none, some, is_some, Result, ok, err, http, ◌>>=◌, ◌>>◌, raise_if,
}
use quiblyx.Model.{Db, Role, Permission}
use quiblyx.Security.{authorize}
use quiblyx.Control.Common.{audit, authorized}

pub record RoleInput : Type 0 where
  pub name : String
  pub permissions : List String

-- The text of each permission.
abbrev pub permission_name : Permission → String
permission_name Permission.read = "read"
permission_name Permission.write = "write"
permission_name Permission.members_manage = "members.manage"
permission_name Permission.roles_manage = "roles.manage"
permission_name Permission.content_read = "content.read"

-- PERMISSIONS, sorted by name.
abbrev pub permissions : List Permission
permissions =
    Permission.content_read ∷ Permission.members_manage ∷ Permission.read ∷ Permission.roles_manage
    ∷ Permission.write ∷ []

abbrev pub is_listed : String → List String → Bool
is_listed name names = any (str_eq name) names

-- `set(body.permissions) <= PERMISSIONS`
abbrev pub is_known : String → Bool
is_known name = any (λ p. str_eq name (permission_name p)) permissions

-- `sorted(set(body.permissions))`
abbrev pub normalised : List String → List Permission
normalised names = select (λ p. is_listed (permission_name p) names) permissions

-- `name in TEMPLATES`
abbrev pub is_template_name : String → Bool
is_template_name name = is_listed name ("owner" ∷ "admin" ∷ "manager" ∷ "member" ∷ "auditor" ∷ [])

abbrev pub new_role : (uid tenant : ℕ) → RoleInput → Role
new_role uid tenant input = record {
  id = uid;
  tenant_id = tenant;
  name = input.name;
  permissions = normalised input.permissions;
}

unfoldable pub create_role_body :
    (uid tenant : ℕ) → RoleInput → (subject : String) → Db → Result (Role × Db)
create_role_body uid tenant input subject db = do
  raise_if (any (λ r. (r.tenant_id == tenant) && str_eq r.name input.name) db.roles)
      (http 409 "role_name_exists")
  ok (
    new_role uid tenant input,
    audit tenant subject "role.created" uid
        (record db { roles = new_role uid tenant input ∷ db.roles }),
  )

-- The check of the input comes after the authorization and before the transaction.
unfoldable pub create_role :
    (uid tenant : ℕ) → RoleInput → (subject : String) → Db → Result Role × Db
unfolding create_role_body
create_role uid tenant input subject db =
    authorized (authorize db tenant subject false none (some Permission.roles_manage))
      (λ _ d. do
        raise_if (is_template_name input.name || not (all is_known input.permissions))
            (http 422 "invalid_role")
        create_role_body uid tenant input subject d)
      db
