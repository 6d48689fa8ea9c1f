-- ===== src/Control/Organisations/Reading.antt =====
-- services/control_api/main.py: what the founder reads back with `organisation` and `usage`.
use quiblyx.Common.{ℕ, ◌≡◌, refl, false, none, ap, subst, String, ==_refl, ok}
use quiblyx.Model.{Db, RoleName, Tenant, monthly}
use quiblyx.Security.{authorize}
use quiblyx.Accounting.Clock.{Clock}
use quiblyx.Control.Common.{authorized-ok}
use quiblyx.Control.Organisations.Founding.{create_org-authorize}
use quiblyx.Control.Organisations.{
  OrganisationInput, create_org, new_tenant, organisation, organisation_body,
}
use quiblyx.Control.Requests.{usage, usage_body}

-- What the founder reads: the row of the tenant, and the use of the month of the founding.
pub record IsRead (clock : Clock) (tid : ℕ) (input : OrganisationInput) (subject : String) (db : Db)
    : Type 0 where
  pub row : Tenant
  pub read : organisation tid subject db ≡ (ok row, db)
  pub row_id : row.id ≡ tid
  pub row_name : row.name ≡ input.name
  pub row_days : row.content_days ≡ input.content_days
  pub used :
      (later : Clock)
      → later.month_number ≡ clock.month_number
      → usage later tid subject db ≡ (
        ok (record {
          period = monthly clock.month_number;
          spent_microusd = 0;
          reserved_microusd = 0;
          hard_limit_microusd = input.budget_microusd;
        }),
        db,
      )

founded-IsRead :
    (clock : Clock) (tid uid budget_uid : ℕ) (input : OrganisationInput) (subject : String)
    (db : Db)
    → IsRead clock tid input subject (create_org clock tid uid budget_uid input subject db).1
unfolding create_org organisation usage
founded-IsRead clock tid uid budget_uid input subject db =
    let founded : Db = (create_org clock tid uid budget_uid input subject db).1 in
    let permitted =
      create_org-authorize clock tid uid budget_uid input subject db false none none in
    record {
      row = new_tenant tid input;
      read =
          authorized-ok (authorize founded tid subject false none none) (λ _. organisation_body tid)
            founded RoleName.owner (new_tenant tid input) founded permitted (rw (==_refl tid) refl);
      row_id = refl;
      row_name = refl;
      row_days = refl;
      used = λ later same.
          authorized-ok (authorize founded tid subject false none none) (λ _. usage_body later tid)
            founded RoleName.owner _ founded permitted
            (rw (==_refl tid, same, ==_refl clock.month_number) refl);
    }

-- After an organisation is founded, its founder reads back its identifier, and its name and
-- retention as they were given; and, whenever it is read within the month of the founding, a usage
-- of nothing spent and nothing reserved of the budget that was asked for. Reading changes nothing.
pub create_org-organisation :
    (clock : Clock) (tid uid budget_uid : ℕ) (input : OrganisationInput) (subject : String)
    (db db' : Db)
    → create_org clock tid uid budget_uid input subject db ≡ (ok tid, db')
    → IsRead clock tid input subject db'
create_org-organisation clock tid uid budget_uid input subject db db' e =
    subst (IsRead clock tid input subject) (ap (λ out. out.1) e)
      (founded-IsRead clock tid uid budget_uid input subject db)
