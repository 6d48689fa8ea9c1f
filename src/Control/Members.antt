-- ===== src/Control/Members.antt =====
-- services/control_api/main.py, `assign_membership`: who may give a role to whom.
pub mod Owners
pub mod Privileges
use quiblyx.Common.{
  ℕ, Bool, true, false, not, ◌&&◌, Option, none, some, is_some, List, [], ◌∷◌, length, String,
  str_eq, ◌==◌, leb, select, update, Result, ok, err, http, ◌>>=◌, ◌>>◌, raise_if, or_raise,
}
use quiblyx.Model.{Db, Membership, RoleName, Permission}
use quiblyx.Hierarchy.{ancestry}
use quiblyx.Security.{authorize, role_at, member_at}
use quiblyx.Control.Common.{audit, authorized}

pub record MembershipInput : Type 0 where
  pub subject : String
  pub role : RoleName
  pub scope_id : Option ℕ

abbrev pub is_owner : RoleName → Bool
is_owner RoleName.owner = true
is_owner _ = false

-- `role in ("manager", "member", "auditor")`
abbrev pub is_delegable : RoleName → Bool
is_delegable RoleName.manager = true
is_delegable RoleName.member = true
is_delegable RoleName.auditor = true
is_delegable _ = false

abbrev pub owners : Db → ℕ → List Membership
owners db tenant = select (λ m. (m.tenant_id == tenant) && is_owner m.role) db.memberships

-- A role that is no template must be a custom role of the tenant.
unfoldable pub check_role : Db → ℕ → RoleName → Result (Unit {0})
check_role db tenant (RoleName.custom role_id) = do
  role ← or_raise (role_at db tenant role_id) (http 404 "resource_not_found")
  ok tt
check_role db tenant _ = ok tt

-- What an actor with a role may give.
unfoldable pub check_delegation : RoleName → MembershipInput → Result (Unit {0})
check_delegation actor input = do
  raise_if (not (is_owner actor) && not (is_delegable input.role))
      (http 403 "cannot_delegate_privilege")
  raise_if (is_owner input.role && is_some input.scope_id) (http 422 "owner_must_be_root")

-- What must hold before the member's row changes.
unfoldable pub check_owners : Db → ℕ → RoleName → RoleName → RoleName → Result (Unit {0})
check_owners db tenant actor before role = do
  raise_if (is_owner before && not (is_owner actor)) (http 403 "cannot_modify_owner")
  raise_if (is_owner before && not (is_owner role) && leb (length (owners db tenant)) 1)
      (http 409 "last_owner_protected")

abbrev pub new_member : ℕ → ℕ → MembershipInput → Membership
new_member uid tenant input = record {
  id = uid;
  tenant_id = tenant;
  subject = input.subject;
  role = input.role;
  scope_id = input.scope_id;
}

abbrev pub reassign : ℕ → MembershipInput → List Membership → List Membership
reassign id input =
    update (λ m. m.id == id) (λ m. record m { role = input.role; scope_id = input.scope_id })

-- The member's row is changed if there is one, and added if not.
unfoldable pub write_member :
    (uid tenant : ℕ) (actor : RoleName) → MembershipInput → Db → Result (ℕ × Db)
unfolding check_owners
write_member uid tenant actor input db = elim (member_at db tenant input.subject) [
  | some row ↦ (do
    check_owners db tenant actor row.role input.role
    ok (row.id, record db { memberships = reassign row.id input db.memberships }))
  | none ↦ ok (uid, record db { memberships = new_member uid tenant input ∷ db.memberships })
]

unfoldable pub assign_membership_body :
    (uid tenant : ℕ)
    → MembershipInput
    → (subject : String) (actor : RoleName) → Db
    → Result (ℕ × Db)
unfolding check_role check_delegation write_member
assign_membership_body uid tenant input subject actor db = do
  path ← ancestry db tenant input.scope_id false
  check_role db tenant input.role
  check_delegation actor input
  written ← write_member uid tenant actor input db
  ok (written.0, audit tenant subject "membership.assigned" written.0 written.1)

unfoldable pub assign_membership :
    (uid tenant : ℕ) → MembershipInput → (subject : String) → Db → Result ℕ × Db
unfolding assign_membership_body
assign_membership uid tenant input subject db =
    authorized (authorize db tenant subject false input.scope_id (some Permission.members_manage))
      (assign_membership_body uid tenant input subject) db
