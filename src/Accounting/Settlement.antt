-- ===== src/Accounting/Settlement.antt =====
-- packages/domain/accounting.py, `transition` and `settle`.
pub mod Rounds
pub mod Life
pub mod Machine
use quiblyx.Common.{
  length, ℕ, ◌+◌, ◌-◌, Bool, true, false, not, ◌&&◌, ◌||◌, Option, none, some, List, [], ◌∷◌, map,
  String, ltb, ◌==◌, if◌then◌else◌, is_some, contains, scalar, select, update, ℤ, pos, negsuc, ◌+ℤ◌,
  Result, ok, err, http, value_error, integrity_error, attribute_error, key_error, ◌>>=◌, ◌>>◌,
  raise_if, or_raise,
}
use quiblyx.Model.{
  Db, transaction, Budget, BudgetUnit, Request, RequestState, Response, Reservation, Ledger,
  LedgerEvent, EventPayload, usage_settled,
}
use quiblyx.Accounting.Budgets.{is_root}

abbrev pub request_at : Db → ℕ → ℕ → Option Request
request_at db tenant request_id =
    scalar (λ r. (r.id == request_id) && (r.tenant_id == tenant)) db.requests

-- `req.state in ("completed", "released")`
abbrev pub is_final : RequestState → Bool
is_final RequestState.completed = true
is_final RequestState.released = true
is_final _ = false

abbrev pub is_reserved : RequestState → Bool
is_reserved RequestState.reserved = true
is_reserved _ = false

abbrev pub is_dispatched : RequestState → Bool
is_dispatched RequestState.dispatched = true
is_dispatched _ = false

-- `state in allowed[req.state]`
abbrev pub allowed : RequestState → RequestState → Bool
allowed RequestState.reserved RequestState.dispatched = true
allowed RequestState.dispatched RequestState.uncertain = true
allowed _ _ = false

abbrev pub is_request : ℕ → ℕ → Request → Bool
is_request tenant request_id r = (r.id == request_id) && (r.tenant_id == tenant)

unfoldable pub transition_body : ℕ → ℕ → RequestState → Db → Result (Unit {0} × Db)
transition_body tenant request_id state db = do
  req ← or_raise (request_at db tenant request_id) attribute_error
  if is_final req.state
      then (if is_dispatched state then err (http 409 "request_already_finalized") else ok (tt, db))
      else (if allowed req.state state
          then ok (
            tt,
            record db {
              requests =
                  update (is_request tenant request_id) (λ r. record r { state = state })
                    db.requests;
            },
          )
          else err (value_error "invalid request transition"))

unfoldable pub transition : ℕ → ℕ → RequestState → Db → Result (Unit {0}) × Db
unfolding transition_body
transition tenant request_id state db = transaction (transition_body tenant request_id state) db

-- A signed amount between 0 and a limit; any other is refused.
unfoldable pub within : ℤ → ℕ → String → Result ℕ
within (negsuc _) limit detail = err (value_error detail)
within (pos n) limit detail = if ltb limit n then err (value_error detail) else ok n

-- What a caller reports of a request: its cost, its tokens, the response to keep, and whether
-- the request was never dispatched.
pub record Usage : Type 0 where
  pub cost : ℤ
  pub input_tokens : ℤ
  pub output_tokens : ℤ
  pub response : Option Response
  pub pre_dispatch : Bool

-- `cost == bound and response is None`: nothing is known but the bound.
abbrev pub is_conservative : ℕ → ℕ → Usage → Bool
is_conservative cost bound u = (cost == bound) && not (is_some u.response)

-- What one reservation of an amount is charged.
unfoldable pub actual_usage : ℕ → ℕ → Usage → BudgetUnit → ℕ → ℤ
unfolding ◌+ℤ◌
actual_usage cost bound u unit amount =
    if u.pre_dispatch
    then pos 0
    else if is_conservative cost bound u
    then pos amount
    else elim unit [
      | BudgetUnit.money ↦ pos cost
      | BudgetUnit.tokens ↦ u.input_tokens +ℤ u.output_tokens
      | BudgetUnit.requests ↦ pos 1
    ]

abbrev pub budget_at : Db → ℕ → ℕ → Option Budget
budget_at db tenant budget_id =
    scalar (λ b. (b.id == budget_id) && (b.tenant_id == tenant)) db.budgets

abbrev pub ledger_entry : ℕ → ℕ → ℕ → ℕ → LedgerEvent → Ledger
ledger_entry tenant request_id budget_id amount event = record {
  tenant_id = tenant;
  request_id = request_id;
  budget_id = budget_id;
  amount = amount;
  event = event;
}

-- The writes of one round of the loop over the reservations, when it may charge `actual`.
unfoldable pub charge : ℕ → ℕ → Reservation → ℕ → Db → Db
charge tenant request_id r actual db = record db {
  budgets =
      update (λ b. b.id == r.budget_id)
        (λ b. record b { reserved = b.reserved - r.amount; spent = b.spent + actual }) db.budgets;
  reservations =
      update (λ x. (x.request_id == r.request_id) && (x.budget_id == r.budget_id))
        (λ x. record x { settled = true }) db.reservations;
  ledger =
      ledger_entry tenant request_id r.budget_id (r.amount - actual) LedgerEvent.release
      ∷ ledger_entry tenant request_id r.budget_id actual LedgerEvent.settle
      ∷ db.ledger;
}

-- One round. A reserved amount below zero breaks the CHECK constraint of the budgets.
unfoldable pub settle_reservation : ℕ → ℕ → ℕ → ℕ → Usage → Reservation → Db → Result Db
unfolding within actual_usage charge
settle_reservation tenant request_id cost bound u r db = do
  b ← or_raise (budget_at db tenant r.budget_id) key_error
  actual ←
      within (actual_usage cost bound u b.unit r.amount) r.amount "usage outside unit reservation"
  raise_if (ltb b.reserved r.amount) integrity_error
  ok (charge tenant request_id r actual db)

unfoldable pub settle_all : ℕ → ℕ → ℕ → ℕ → Usage → List Reservation → Db → Result Db
unfolding settle_reservation
settle_all tenant request_id cost bound u [] db = ok db
settle_all tenant request_id cost bound u (r ∷ rs) db = do
  db' ← settle_reservation tenant request_id cost bound u r db
  settle_all tenant request_id cost bound u rs db'

abbrev pub final_state : Bool → RequestState
final_state pre_dispatch = if pre_dispatch then RequestState.released else RequestState.completed

abbrev pub finished : ℕ → Usage → Request → Request
finished cost u r = record r {
  state = final_state u.pre_dispatch;
  cost = some cost;
  input_tokens = u.input_tokens;
  output_tokens = u.output_tokens;
  response = u.response;
}

unfoldable pub finish_request : ℕ → ℕ → ℕ → Usage → EventPayload → Db → Db
finish_request tenant request_id cost u payload db = record db {
  requests = update (is_request tenant request_id) (finished cost u) db.requests;
  events =
      record {
        id = length db.events;
        tenant_id = tenant;
        payload = payload;
        delivered = false;
        dedup_key = none;
      }
      ∷ db.events;
}

-- `pre_dispatch and (state != "reserved" or cost != 0)`
abbrev pub bad_release : Usage → RequestState → ℕ → Bool
bad_release u state cost = u.pre_dispatch && (not (is_reserved state) || not (cost == 0))

abbrev pub reservations_of : Db → ℕ → ℕ → List Reservation
reservations_of db tenant request_id =
    select (λ r. (r.tenant_id == tenant) && (r.request_id == request_id)) db.reservations

-- The settlement of a request that draws on the tenant's budgets. The request is read once: the
-- root lock keeps it from changing between the two reads of the source.
unfoldable pub settle_budgets : ℕ → ℕ → Request → Usage → Db → Result (Unit {0} × Db)
unfolding settle_all finish_request
settle_budgets tenant request_id req u db = do
  let rs = reservations_of db tenant request_id
  root ←
      or_raise
        (scalar (λ b. contains b.id (map (λ r. r.budget_id) rs) && is_root tenant req.period b)
          db.budgets)
        (value_error "missing root reservation")
  if is_final req.state then ok (tt, db) else do
    cost ← within u.cost req.bound "usage outside reserved bound; reconciliation required"
    raise_if (bad_release u req.state cost) (value_error "cannot release dispatched usage")
    db' ← settle_all tenant request_id cost req.bound u rs db
    ok (tt, finish_request tenant request_id cost u (usage_settled request_id) db')
