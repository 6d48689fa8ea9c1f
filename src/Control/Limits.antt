-- ===== src/Control/Limits.antt =====
-- services/control_api/main.py, `budget`: a budget is created, or its limit changed under the
-- version that the caller has read.
pub mod Versions
use quiblyx.Common.{
  ℕ, ◌+◌, Bool, true, false, not, ◌&&◌, Option, none, some, List, [], ◌∷◌, String, ◌==◌,
  if◌then◌else◌, scalar, update, Result, ok, err, http, ◌>>=◌, ◌>>◌, raise_if, or_raise,
}
use quiblyx.Model.{Db, Application, Budget, BudgetUnit, unit_eq, Period, period_eq}
use quiblyx.Hierarchy.{group_at}
use quiblyx.Security.{authorize}
use quiblyx.Accounting.Clock.{Clock, month, today}
use quiblyx.Control.Common.{audit, authorized, application_of}

-- The cadence of the request: one budget for the month or one for the day.
pub data Cadence : Type 0 where
  by_month by_day : Cadence

pub record BudgetInput : Type 0 where
  pub scope_id : ℕ
  pub hard_limit : ℕ
  pub version : ℕ
  pub unit : BudgetUnit
  pub cadence : Cadence

abbrev pub period_of : Clock → Cadence → Period
period_of clock Cadence.by_month = month clock
period_of clock Cadence.by_day = today clock

-- The scope is the tenant, one of its groups or one of its applications.
unfoldable pub check_target : Db → ℕ → ℕ → Result (Unit {0})
check_target db tenant scope =
    if scope == tenant then ok tt else elim (group_at db.groups tenant scope) [
      | some _ ↦ ok tt
      | none ↦ (do application ← application_of db tenant scope; ok tt)
    ]

abbrev pub is_budget_of : ℕ → ℕ → Period → BudgetUnit → Budget → Bool
is_budget_of tenant scope period unit b =
    (b.tenant_id == tenant)
    && (b.scope_id == scope)
    && period_eq b.period period
    && unit_eq b.unit unit

abbrev pub budget_of : Db → ℕ → ℕ → Period → BudgetUnit → Option Budget
budget_of db tenant scope period unit = scalar (is_budget_of tenant scope period unit) db.budgets

abbrev pub new_budget : ℕ → ℕ → Period → BudgetInput → Budget
new_budget uid tenant period input = record {
  id = uid;
  tenant_id = tenant;
  scope_id = input.scope_id;
  period = period;
  unit = input.unit;
  hard_limit = input.hard_limit;
  spent = 0;
  reserved = 0;
  version = 1;
}

abbrev pub relimited : ℕ → Budget → Budget
relimited hard_limit b = record b { hard_limit = hard_limit; version = b.version + 1 }

-- `if row: ... else: ...`, with the row that the handler returns.
unfoldable pub write_budget : (uid tenant : ℕ) → Period → BudgetInput → Db → Result (Budget × Db)
write_budget uid tenant period input db =
    elim (budget_of db tenant input.scope_id period input.unit) [
      | some row ↦ (do
        raise_if (not (row.version == input.version)) (http 409 "version_conflict")
        ok (
          relimited input.hard_limit row,
          record db {
            budgets = update (λ b. b.id == row.id) (relimited input.hard_limit) db.budgets;
          },
        ))
      | none ↦ (do
        raise_if (not (input.version == 0)) (http 409 "version_conflict")
        ok (
          new_budget uid tenant period input,
          record db { budgets = new_budget uid tenant period input ∷ db.budgets },
        ))
    ]

unfoldable pub budget_body :
    Clock → (uid tenant : ℕ) → BudgetInput → (subject : String) → Db → Result (Budget × Db)
unfolding check_target write_budget
budget_body clock uid tenant input subject db = do
  check_target db tenant input.scope_id
  written ← write_budget uid tenant (period_of clock input.cadence) input db
  ok (written.0, audit tenant subject "budget.updated" written.0.id written.1)

unfoldable pub budget :
    Clock → (uid tenant : ℕ) → BudgetInput → (subject : String) → Db → Result Budget × Db
unfolding budget_body
budget clock uid tenant input subject db =
    authorized (authorize db tenant subject true none none)
      (λ _. budget_body clock uid tenant input subject) db
