-- ===== src/Control/Requests.antt =====
-- services/control_api/main.py, the handlers of requests and usage: `reconcile`, `usage` and
-- `request_detail`.
pub mod Reconciliation
use quiblyx.Common.{
  ℕ, Bool, true, false, not, ◌&&◌, ◌||◌, Option, none, some, List, String, ◌==◌, opt_eq, scalar,
  select, pos, Result, ok, err, http, ◌>>=◌, ◌>>◌, raise_if,
}
use quiblyx.Model.{
  Db, and_then, Budget, BudgetUnit, ContractAllocation, Ledger, Period, Request, RequestState,
  Reservation, RoleName,
}
use quiblyx.Security.{authorize}
use quiblyx.Accounting.Admission.{is_completed}
use quiblyx.Accounting.Budgets.{root_budget}
use quiblyx.Accounting.Clock.{Clock, month}
use quiblyx.Accounting.Closing.{allocation_at, settle}
use quiblyx.Accounting.Settlement.{Usage, reservations_of}
use quiblyx.Control.Common.{audit, authorized, request_row}
use quiblyx.Control.Contracts.{in_order}

-- `role in ("owner", "admin")`
abbrev pub is_governor : RoleName → Bool
is_governor RoleName.owner = true
is_governor RoleName.admin = true
is_governor _ = false

abbrev pub is_uncertain : RequestState → Bool
is_uncertain RequestState.uncertain = true
is_uncertain _ = false

-- `settle(tenant, request_id, bound)`
abbrev pub conservative : ℕ → Usage
conservative bound = record {
  cost = pos bound;
  input_tokens = pos 0;
  output_tokens = pos 0;
  response = none;
  pre_dispatch = false;
}

unfoldable pub reconcile_body :
    (tenant request_id : ℕ) → (subject : String) → RoleName → Db → Result (ℕ × Db)
reconcile_body tenant request_id subject role db = do
  raise_if (not (is_governor role)) (http 403 "permission_denied")
  request ← request_row db tenant request_id
  raise_if (not (is_uncertain request.state || is_completed request.state))
      (http 409 "request_not_uncertain")
  raise_if (is_completed request.state && not (opt_eq request.cost (some request.bound)))
      (http 409 "request_already_settled_with_actual_usage")
  ok (
    request.bound,
    audit tenant subject "request.conservative_reconciliation_requested" request_id db,
  )

-- The answer is the amount that is charged.
unfoldable pub reconcile : (tenant request_id : ℕ) → (subject : String) → Db → Result ℕ × Db
unfolding authorize reconcile_body settle
reconcile tenant request_id subject db =
    and_then
      (authorized (authorize db tenant subject true none none)
        (reconcile_body tenant request_id subject) db)
      (λ bound db'.
        and_then (settle tenant request_id (conservative bound) db') (λ _ d. (ok bound, d)))

pub record UsageReport : Type 0 where
  pub period : Period
  pub spent_microusd : ℕ
  pub reserved_microusd : ℕ
  pub hard_limit_microusd : ℕ

-- The row of the root budget, or zeros if the tenant has none this month.
abbrev pub report_of : Period → Option Budget → UsageReport
report_of period (some root) = record {
  period = period;
  spent_microusd = root.spent;
  reserved_microusd = root.reserved;
  hard_limit_microusd = root.hard_limit;
}
report_of period none = record {
  period = period;
  spent_microusd = 0;
  reserved_microusd = 0;
  hard_limit_microusd = 0;
}

abbrev pub usage_body : Clock → (tenant : ℕ) → Db → Result (UsageReport × Db)
usage_body clock tenant db = ok (report_of (month clock) (root_budget db tenant (month clock)), db)

unfoldable pub usage : Clock → (tenant : ℕ) → (subject : String) → Db → Result UsageReport × Db
unfolding authorize
usage clock tenant subject db =
    authorized (authorize db tenant subject false none none) (λ _. usage_body clock tenant) db

-- `record(row)` of a request, which leaves out the stored response.
abbrev pub shown : Request → Request
shown r = record r { response = none }

pub record RequestDetail : Type 0 where
  pub request : Request
  pub contract_allocation : Option ContractAllocation
  pub reservations : List Reservation
  pub ledger : List Ledger

unfoldable pub request_detail :
    (tenant request_id : ℕ) → (subject : String) → Db → Result RequestDetail × Db
unfolding authorize
request_detail tenant request_id subject db =
    authorized (authorize db tenant subject false none none)
      (λ _ d. do
        request ← request_row d tenant request_id
        ok (
          record {
            request = shown request;
            contract_allocation = allocation_at d tenant request_id;
            reservations = reservations_of d tenant request_id;
            ledger =
                in_order
                  (select (λ l. (l.tenant_id == tenant) && (l.request_id == request_id)) d.ledger);
          },
          d,
        ))
      db
