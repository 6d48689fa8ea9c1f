-- ===== src/Control/Roles/Grants.antt =====
-- `create_role` of services/control_api/main.py against `authorize` of
-- packages/domain/security.py.
use quiblyx.Common.{
  ℕ, ◌≡◌, refl, ◌∙◌, ap, inl, inr, Bool, true, false, not, ◌||◌, Bool-cases, Option, none, some,
  List, [], ◌∷◌, all, ◌&&◌, select, arith, String, ==_refl, if◌then◌else◌, ok, err, http, raise_if,
  ◌>>=◌, ◌>>◌, scalar, ◌==◌,
}
use quiblyx.Model.{Db, Membership, Role, RoleName, Permission}
use quiblyx.Security.{
  permission_eq, authorize, check_scope, grants, member_at, permissions_of, stored_permissions,
}
use quiblyx.Control.Common.{authorized-eq-ok}
use quiblyx.Control.Roles.{
  RoleInput, create_role, create_role_body, is_known, is_listed, is_template_name, new_role,
  normalised, permissions, permission_name,
}

permission_eq-eq : (p x : Permission) → permission_eq p x ≡ true → p ≡ x
permission_eq-eq Permission.read x h = ground arith
permission_eq-eq Permission.write x h = ground arith
permission_eq-eq Permission.members_manage x h = ground arith
permission_eq-eq Permission.roles_manage x h = ground arith
permission_eq-eq Permission.content_read x h = ground arith

grants-select :
    (q : Permission → Bool) (xs : List Permission) (p : Permission)
    → grants (select q xs) p ≡ (q p && grants xs p)
grants-select q [] p = ground arith
grants-select q (x ∷ xs) p = elim (Bool-cases (permission_eq p x)) [
  | inl same ↦ ground (arith, ap q (permission_eq-eq p x same), grants-select q xs p)
  | inr other ↦ ground (arith, grants-select q xs p)
]

every_permission : (p : Permission) → grants permissions p ≡ true
every_permission Permission.read = refl
every_permission Permission.write = refl
every_permission Permission.members_manage = refl
every_permission Permission.roles_manage = refl
every_permission Permission.content_read = refl

-- The permissions that are kept are the ones that were named.
grants-normalised :
    (names : List String) (p : Permission)
    → grants (normalised names) p ≡ is_listed (permission_name p) names
grants-normalised names p =
    grants-select (λ x. is_listed (permission_name x) names) permissions p
    ∙ rw (every_permission p) (ground arith)

create_role-rows :
    (uid t : ℕ) (input : RoleInput) (subject : String) (role : Role) (db db' : Db)
    → create_role uid t input subject db ≡ (ok role, db')
    → (all is_known input.permissions ≡ true) × (db'.roles ≡ new_role uid t input ∷ db.roles)
unfolding create_role create_role_body
create_role-rows uid t input subject role db db' e =
    let done =
      (authorized-eq-ok (authorize db t subject false none (some Permission.roles_manage))
        (λ _ d. do
          raise_if (is_template_name input.name || not (all is_known input.permissions))
              (http 422 "invalid_role")
          create_role_body uid t input subject d)
        db role db' e).2 in
    (ground arith, ground arith)

permissions_of-new :
    (uid t : ℕ) (input : RoleInput) (db db' : Db)
    → db'.roles ≡ new_role uid t input ∷ db.roles
    → permissions_of db' t (RoleName.custom uid) ≡ normalised input.permissions
permissions_of-new uid t input db db' rows =
    ap (λ rs. stored_permissions (scalar (λ r. (r.tenant_id == t) && (r.id == uid)) rs)) rows
    ∙ rw (==_refl t, ==_refl uid) refl

authorize-root :
    (t : ℕ) (who : String) (m : Membership) (p : Permission) (db : Db)
    → member_at db t who ≡ some m
    → m.scope_id ≡ none
    → authorize db t who false none (some p) ≡ (
        if grants (permissions_of db t m.role) p
        then ok m.role
        else err (http 403 "permission_denied"))
unfolding authorize check_scope
authorize-root t who m p db found root =
    rw found (if_raise (grants (permissions_of db t m.role) p) m.scope_id root)
  where
    if_raise :
        (g : Bool) (scope : Option ℕ)
        → scope ≡ none
        → (raise_if (not g) (http 403 "permission_denied") >>= λ _.
            check_scope db t scope none >>= λ _. ok m.role)
          ≡ (if g then ok m.role else err (http 403 "permission_denied"))
    if_raise true none e = refl
    if_raise false none e = refl
    if_raise g (some x) e = absurd (cc e)

-- A custom role grants exactly what it was created with: after its creation from a list of names,
-- all of which name a permission, a member who has it without a scope is authorized for a
-- permission if that permission's name was in the list, and refused otherwise.
pub create_role-authorize :
    (uid t : ℕ) (input : RoleInput) (subject who : String) (role : Role) (m : Membership)
    (p : Permission) (db db' : Db)
    → create_role uid t input subject db ≡ (ok role, db')
    → member_at db' t who ≡ some m
    → m.role ≡ RoleName.custom uid
    → m.scope_id ≡ none
    → (all is_known input.permissions ≡ true)
      × (authorize db' t who false none (some p) ≡ (
          if is_listed (permission_name p) input.permissions
          then ok (RoleName.custom uid)
          else err (http 403 "permission_denied")))
create_role-authorize uid t input subject who role m p db db' e found has root =
    let (known, rows) = create_role-rows uid t input subject role db db' e in
    (
      known,
      authorize-root t who m p db' found root
          ∙ ap
              (λ r.
                if grants (permissions_of db' t r) p
                then ok r
                else err (http 403 "permission_denied"))
              has
          ∙ ap (λ g. if g then ok (RoleName.custom uid) else err (http 403 "permission_denied"))
              (ap (λ ps. grants ps p) (permissions_of-new uid t input db db' rows)
                ∙ grants-normalised input.permissions p),
    )
