-- ===== src/Examples/Handlers.antt =====
-- The handlers of budgets and keys at the example organisation.
use quiblyx.Common.{ℕ, ◌≡◌, ◌≢◌, refl, none, true, ok, err, http, String}
use quiblyx.Model.{Db, RoleName, BudgetUnit, Budget, monthly}
use quiblyx.Security.{authorize, check_scope}
use quiblyx.Accounting.Clock.{Clock}
use quiblyx.Control.Limits.{BudgetInput, Cadence, budget, check_target, write_budget}
use quiblyx.Control.Limits.Versions.{IsWritten, budget-conflict}
use quiblyx.Control.Keys.{revoke_key}
use quiblyx.Gateway.Authentication.{authenticate, check_account}
use quiblyx.Gateway.Authentication.Revocation.{revoke_key-IsEffective}
use quiblyx.Examples.{noon, start, group_row}

abbrev raise_limit : BudgetInput
raise_limit = record {
  scope_id = 10;
  hard_limit = 80;
  version = 1;
  unit = BudgetUnit.money;
  cadence = Cadence.by_month;
}

abbrev raised_row : Budget
raised_row = record group_row { hard_limit = 80; version = 2 }

abbrev raised : Db
raised = (budget noon 70 1 raise_limit "ada" start).1

budget_runs : budget noon 70 1 raise_limit "ada" start ≡ (ok raised_row, raised)
unfolding budget check_target write_budget authorize check_scope
budget_runs = refl

ada_writes : authorize raised 1 "ada" true none none ≡ ok RoleName.owner
unfolding budget check_target write_budget authorize check_scope
ada_writes = refl

-- Later in the same month.
abbrev evening : Clock
evening = record { now = 900; month_number = 5; day_number = 21 }

budget-conflict_example :
    IsWritten 1 (monthly 5) raise_limit raised_row start raised
    × (budget evening 71 1 (record raise_limit { hard_limit = 90 }) "ada" raised
        ≡ (err (http 409 "version_conflict"), raised))
budget-conflict_example =
    budget-conflict noon evening 70 71 1 90 raise_limit "ada" "ada" raised_row RoleName.owner start
      raised budget_runs ada_writes refl

-- A digest for the example: the secret itself.
abbrev plain : String → String
plain secret = secret

abbrev revoked : Db
revoked = (revoke_key 1 3 "ada" start).1

revoke_runs : revoke_key 1 3 "ada" start ≡ (ok true, revoked)
unfolding revoke_key authorize check_scope
revoke_runs = refl

key_works : authenticate plain start "Bearer d" ≡ ok (1, 3, 2)
unfolding authenticate check_account
key_works = refl

key_refused : authenticate plain revoked "Bearer d" ≡ err (http 401 "invalid_key")
unfolding authenticate check_account revoke_key authorize check_scope
key_refused = refl

revoke_key-IsEffective_example :
    ((auth : String) (x : ℕ × ℕ × ℕ) → authenticate plain revoked auth ≡ ok x → x.1 ≢ 3)
    × ((auth : String) (x : ℕ × ℕ × ℕ)
        → authenticate plain start auth ≡ ok x
        → x.1 ≢ 3
        → authenticate plain revoked auth ≡ ok x)
revoke_key-IsEffective_example =
    revoke_key-IsEffective plain 1 3 "ada" true start revoked revoke_runs
