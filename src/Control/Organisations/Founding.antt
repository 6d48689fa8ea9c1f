-- ===== src/Control/Organisations/Founding.antt =====
-- `create_org` of services/control_api/main.py: the founder governs the new tenant.
use quiblyx.Common.{
  ℕ, ◌≡◌, refl, ◌≢◌, ◌==◌, Bool, true, false, Option, none, some, [], ◌∷◌, All, Distinct, arith,
  String, str_eq_refl, ==_refl, ok, map,
}
use quiblyx.Model.{Budget, Db, Period, Permission, RoleName, monthly}
use quiblyx.Hierarchy.{ancestry}
use quiblyx.Security.{authorize, check_scope, grants, needed}
use quiblyx.Accounting.Clock.{Clock}
use quiblyx.Accounting.Budgets.{root_budget}
use quiblyx.Control.Members.{is_owner}
use quiblyx.Control.Members.Owners.{IsGoverned, IsNewMember}
use quiblyx.Control.Organisations.{OrganisationInput, create_org, first_budget}

every_permission :
    (p : Permission)
    → grants
        (Permission.read ∷ Permission.write ∷ Permission.members_manage ∷ Permission.roles_manage
          ∷ Permission.content_read ∷ [])
        p
      ≡ true
every_permission Permission.read = refl
every_permission Permission.write = refl
every_permission Permission.members_manage = refl
every_permission Permission.roles_manage = refl
every_permission Permission.content_read = refl

pub create_org-authorize :
    (clock : Clock) (tid uid budget_uid : ℕ) (input : OrganisationInput) (subject : String)
    (db : Db) (write : Bool) (scope : Option ℕ) (p : Option Permission)
    → authorize (create_org clock tid uid budget_uid input subject db).1 tid subject write scope p
      ≡ ok RoleName.owner
unfolding create_org authorize check_scope
create_org-authorize clock tid uid budget_uid input subject db write scope p =
    rw (==_refl tid, str_eq_refl subject, every_permission (needed write p)) refl

-- The founder's tenant, and every other tenant as it was.
pub record IsFounded (clock : Clock) (tid : ℕ) (input : OrganisationInput) (subject : String)
    (db db' : Db) : Type 0 where
  pub governed : IsGoverned tid db'
  pub permitted :
      (write : Bool) (scope : Option ℕ) (p : Option Permission)
      → authorize db' tid subject write scope p ≡ ok RoleName.owner
  pub root : Budget
  pub rooted : root_budget db' tid (monthly clock.month_number) ≡ some root
  pub limit : root.hard_limit ≡ input.budget_microusd
  pub spent : root.spent ≡ 0
  pub reserved : root.reserved ≡ 0
  pub same_roles :
      (t : ℕ)
      → t ≢ tid
      → (name : String) (write : Bool) (scope : Option ℕ) (p : Option Permission)
      → authorize db' t name write scope p ≡ authorize db t name write scope p
  pub same_roots : (t : ℕ) → t ≢ tid → (p : Period) → root_budget db' t p ≡ root_budget db t p

module _ (clock : Clock) (tid uid budget_uid : ℕ) (input : OrganisationInput) (subject : String)
    (db : Db) (t : ℕ) (other : t ≢ tid) where
  founded-same_roles :
      (name : String) (write : Bool) (scope : Option ℕ) (p : Option Permission)
      → authorize (create_org clock tid uid budget_uid input subject db).1 t name write scope p
        ≡ authorize db t name write scope p
  unfolding create_org authorize check_scope ancestry
  founded-same_roles name write scope p =
      let apart : (tid == t) ≡ false = ground arith in rw apart refl

  founded-same_roots :
      (p : Period)
      → root_budget (create_org clock tid uid budget_uid input subject db).1 t p
        ≡ root_budget db t p
  unfolding create_org
  founded-same_roots p = let apart : (tid == t) ≡ false = ground arith in rw apart refl

-- Who founds an organisation is its owner: every action at every scope is authorized, and the
-- tenant is governed, so that assignments keep an owner. Admission finds its root budget for the
-- month, with the limit asked for and nothing spent or reserved. In every other tenant the same
-- callers are authorized as before, and the root budgets are the same. Members must have distinct
-- identifiers, the new member's must not be in use, and owners must be members without a scope.
pub create_org-IsGoverned :
    (clock : Clock) (tid uid budget_uid : ℕ) (input : OrganisationInput) (subject : String)
    (db : Db)
    → IsNewMember uid db
    → Distinct (map (λ m. m.id) db.memberships)
    → All (λ m. is_owner m.role ≡ true → m.scope_id ≡ none) db.memberships
    → IsFounded clock tid input subject db (create_org clock tid uid budget_uid input subject db).1
unfolding create_org
create_org-IsGoverned clock tid uid budget_uid input subject db new distinct rooted = record {
  governed = record {
    distinct = (new, distinct);
    rooted = (λ e. refl, rooted);
    owned = rw (==_refl tid) (omega arith);
  };
  permitted = create_org-authorize clock tid uid budget_uid input subject db;
  root = first_budget clock budget_uid tid input;
  rooted = rw (==_refl tid, ==_refl clock.month_number) refl;
  limit = refl;
  spent = refl;
  reserved = refl;
  same_roles = founded-same_roles clock tid uid budget_uid input subject db;
  same_roots = founded-same_roots clock tid uid budget_uid input subject db;
}
