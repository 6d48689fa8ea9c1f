-- ===== src/Control/Organisations.antt =====
-- services/control_api/main.py, `create_org`: a tenant with its first owner and its root budget;
-- `organisation`: its row.
pub mod Founding
pub mod Reading
use quiblyx.Common.{
  ℕ, ◌==◌, false, String, none, ◌∷◌, scalar, Result, ok, attribute_error, ◌>>=◌, or_raise,
}
use quiblyx.Model.{Db, transaction, Tenant, Membership, RoleName, Budget, BudgetUnit}
use quiblyx.Accounting.Clock.{Clock, month}
use quiblyx.Security.{authorize}
use quiblyx.Control.Common.{audit, authorized}

pub record OrganisationInput : Type 0 where
  pub name : String
  pub content_days : ℕ
  pub budget_microusd : ℕ

abbrev pub new_tenant : ℕ → OrganisationInput → Tenant
new_tenant tid input = record {
  id = tid;
  name = input.name;
  content_days = input.content_days;
  metadata_days = 90;
}

abbrev pub founder : (uid tid : ℕ) → String → Membership
founder uid tid subject = record {
  id = uid;
  tenant_id = tid;
  subject = subject;
  role = RoleName.owner;
  scope_id = none;
}

abbrev pub first_budget : Clock → (uid tid : ℕ) → OrganisationInput → Budget
first_budget clock uid tid input = record {
  id = uid;
  tenant_id = tid;
  scope_id = tid;
  period = month clock;
  unit = BudgetUnit.money;
  hard_limit = input.budget_microusd;
  spent = 0;
  reserved = 0;
  version = 1;
}

-- Any subject may found an organisation: no permission is asked for.
unfoldable pub create_org :
    Clock
    → (tid member_uid budget_uid : ℕ) → OrganisationInput
    → (subject : String) → Db
    → Result ℕ × Db
create_org clock tid member_uid budget_uid input subject = transaction λ db. ok (
  tid,
  audit tid subject "organisation.created" tid (record db {
    tenants = new_tenant tid input ∷ db.tenants;
    memberships = founder member_uid tid subject ∷ db.memberships;
    budgets = first_budget clock budget_uid tid input ∷ db.budgets;
  }),
)

-- `record(s.get(Tenant, tenant))`, where a missing row is `None`.
abbrev pub organisation_body : (tenant : ℕ) → Db → Result (Tenant × Db)
organisation_body tenant db = do
  row ← or_raise (scalar (λ r. r.id == tenant) db.tenants) attribute_error
  ok (row, db)

unfoldable pub organisation : (tenant : ℕ) → (subject : String) → Db → Result Tenant × Db
unfolding authorize
organisation tenant subject db =
    authorized (authorize db tenant subject false none none) (λ _. organisation_body tenant) db
