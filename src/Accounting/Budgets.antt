-- ===== src/Accounting/Budgets.antt =====
-- What admission and contract creation share: the root budget, the budgets that apply to a
-- request, their limits and the threshold events.
pub mod Thresholds
pub mod Active
pub mod Order
use quiblyx.Common.{
  length, ℕ, ◌+◌, ◌*◌, Bool, false, not, ◌&&◌, ◌||◌, Option, none, some, List, [], ◌∷◌, String, ltb,
  leb, ◌==◌, if◌then◌else◌, contains, select, scalar, any, Result, ok, http, ◌>>◌, raise_if,
}
use quiblyx.Model.{
  Db, Budget, BudgetUnit, money, unit_eq, Period, period_eq, period_len, Event, budget_threshold,
}

abbrev pub is_root : ℕ → Period → Budget → Bool
is_root tenant period b =
    (b.tenant_id == tenant)
    && (b.scope_id == tenant)
    && period_eq b.period period
    && unit_eq b.unit money

abbrev pub root_budget : Db → ℕ → Period → Option Budget
root_budget db tenant period = scalar (is_root tenant period) db.budgets

-- The dict `bounds`: what a request or a contract may use at most, by unit.
pub record Bounds : Type 0 where
  pub money : ℕ
  pub tokens : ℕ
  pub requests : ℕ

abbrev pub bound_of : Bounds → BudgetUnit → ℕ
bound_of bs BudgetUnit.money = bs.money
bound_of bs BudgetUnit.tokens = bs.tokens
bound_of bs BudgetUnit.requests = bs.requests

-- `.order_by(Budget.id)`
unfoldable pub insert_by_id : Budget → List Budget → List Budget
insert_by_id b [] = b ∷ []
insert_by_id b (c ∷ bs) = if leb b.id c.id then b ∷ c ∷ bs else c ∷ insert_by_id b bs

unfoldable pub order_by_id : List Budget → List Budget
unfolding insert_by_id
order_by_id [] = []
order_by_id (b ∷ bs) = insert_by_id b (order_by_id bs)

abbrev pub in_scope : ℕ → List ℕ → Budget → Bool
in_scope tenant scopes b = (b.tenant_id == tenant) && contains b.scope_id scopes

-- The month's and the day's budgets of the scopes, locked in the order of their identifiers.
unfoldable pub active_budgets : Db → ℕ → List ℕ → Period → Period → List Budget
unfolding order_by_id
active_budgets db tenant scopes period day = order_by_id (
    select (λ b. in_scope tenant scopes b && (period_eq b.period period || period_eq b.period day))
      db.budgets)

abbrev pub same_kind : Budget → Budget → Bool
same_kind b c =
    (b.scope_id == c.scope_id)
    && unit_eq b.unit c.unit
    && (period_len b.period == period_len c.period)

-- Some budget of the scopes has no active budget of its kind.
unfoldable pub needs_renewal : List Budget → List Budget → Bool
needs_renewal active history = any (λ b. not (any (λ c. same_kind c b) active)) history

-- The first loop over the budgets: none may pass its limit.
unfoldable pub check_limits : Bounds → String → List Budget → Result (Unit {0})
check_limits bs detail [] = ok tt
check_limits bs detail (b ∷ rest) = do
  raise_if (ltb b.hard_limit (b.spent + b.reserved + bound_of bs b.unit)) (http 429 detail)
  check_limits bs detail rest

abbrev pub dedup_eq : Option (ℕ × ℕ × ℕ) → ℕ → ℕ → ℕ → Bool
dedup_eq none t b n = false
dedup_eq (some k) t b n = (k.0 == t) && (k.1 == b) && (k.2 == n)

abbrev pub has_event : Db → Budget → ℕ → Bool
has_event db b threshold =
    any (λ e. (e.tenant_id == b.tenant_id) && dedup_eq e.dedup_key b.tenant_id b.id threshold)
      db.events

abbrev pub threshold_event : (id : ℕ) → Budget → ℕ → Event
threshold_event id b threshold = record {
  id = id;
  tenant_id = b.tenant_id;
  payload = budget_threshold b.id threshold b.unit b.period;
  delivered = false;
  dedup_key = some (b.tenant_id, b.id, threshold);
}

-- One round of the loop over the thresholds.
unfoldable pub raise_threshold : Budget → ℕ → Db → Db
raise_threshold b threshold db =
    if leb (b.hard_limit * threshold) ((b.spent + b.reserved) * 100)
    then (if has_event db b threshold
        then db
        else record db { events = threshold_event (length db.events) b threshold ∷ db.events })
    else db

unfoldable pub threshold_events : Budget → Db → Db
unfolding raise_threshold
threshold_events b db =
    if b.hard_limit == 0
    then db
    else raise_threshold b 95 (raise_threshold b 85 (raise_threshold b 70 db))
