-- ===== src/Security.antt =====
-- packages/domain/security.py, `authorize`: who may do what, and where.
pub mod Scopes
use quiblyx.Common.{
  ℕ, Bool, true, false, not, ◌&&◌, ◌||◌, Option, none, some, List, [], ◌∷◌, String, str_eq, ◌==◌,
  contains, scalar, Result, ok, http, ◌>>=◌, ◌>>◌, raise_if, or_raise,
}
use quiblyx.Model.{Db, Membership, Role, RoleName, Permission}
use quiblyx.Hierarchy.{ancestry}

abbrev pub permission_eq : Permission → Permission → Bool
permission_eq Permission.read Permission.read = true
permission_eq Permission.write Permission.write = true
permission_eq Permission.members_manage Permission.members_manage = true
permission_eq Permission.roles_manage Permission.roles_manage = true
permission_eq Permission.content_read Permission.content_read = true
permission_eq _ _ = false

abbrev pub grants : List Permission → Permission → Bool
grants [] p = false
grants (q ∷ qs) p = permission_eq p q || grants qs p

-- `TEMPLATES.get(role)`
abbrev pub template : RoleName → Option (List Permission)
template RoleName.owner = some (
    Permission.read ∷ Permission.write ∷ Permission.members_manage ∷ Permission.roles_manage
    ∷ Permission.content_read ∷ [])
template RoleName.admin =
    some (
      Permission.read ∷ Permission.write ∷ Permission.members_manage ∷ Permission.content_read ∷ [])
template RoleName.manager = some (Permission.read ∷ Permission.write ∷ [])
template RoleName.member = some (Permission.read ∷ [])
template RoleName.auditor = some (Permission.read ∷ [])
template (RoleName.custom _) = none

abbrev pub role_at : Db → ℕ → ℕ → Option Role
role_at db tenant role_id = scalar (λ r. (r.tenant_id == tenant) && (r.id == role_id)) db.roles

abbrev pub stored_permissions : Option Role → List Permission
stored_permissions none = []
stored_permissions (some r) = r.permissions

-- The permissions of a template, or of the custom role that the name identifies.
abbrev pub permissions_of : Db → ℕ → RoleName → List Permission
permissions_of db tenant role = elim (template role) [
  | some permissions ↦ permissions
  | none ↦ elim role [
    | RoleName.custom role_id ↦ stored_permissions (role_at db tenant role_id)
    | _ ↦ []
  ]
]

abbrev pub member_at : Db → ℕ → String → Option Membership
member_at db tenant subject =
    scalar (λ m. (m.tenant_id == tenant) && str_eq m.subject subject) db.memberships

-- `permission or ("write" if write else "read")`
abbrev pub needed : Bool → Option Permission → Permission
needed write (some p) = p
needed true none = Permission.write
needed false none = Permission.read

-- The groups from the scope up, if a scope is given.
abbrev pub scope_path : Db → ℕ → Option ℕ → Result (List ℕ)
scope_path db tenant none = ok []
scope_path db tenant (some scope) = ancestry db tenant (some scope) false

-- A member with a scope acts only at groups below it.
unfoldable pub check_scope : Db → ℕ → Option ℕ → Option ℕ → Result (Unit {0})
check_scope db tenant none scope = ok tt
check_scope db tenant (some limit) scope = do
  path ← scope_path db tenant scope
  raise_if (not (contains limit path)) (http 403 "permission_denied")

-- The role of the subject, if it may act.
unfoldable pub authorize :
    Db → ℕ → String → (write : Bool) → (scope : Option ℕ) → Option Permission → Result RoleName
unfolding check_scope
authorize db tenant subject write scope permission = do
  member ← or_raise (member_at db tenant subject) (http 403 "permission_denied")
  raise_if (not (grants (permissions_of db tenant member.role) (needed write permission)))
      (http 403 "permission_denied")
  check_scope db tenant member.scope_id scope
  ok member.role
