-- ===== src/Accounting/Admission.antt =====
-- packages/domain/accounting.py, `admit`. `payload_digest` is a digest of the payload by a library
-- (SHA-256 of canonical JSON), so it is a parameter; `uid` is the identifier that the new request
-- draws. The root lock makes the transaction one step of the tenant.
pub mod Cases
pub mod Limits
pub mod Idempotency
use quiblyx.Common.{
  ℕ, suc, ◌+◌, Bool, true, false, not, ◌&&◌, Option, none, some, List, [], ◌∷◌, String, str_eq,
  ◌==◌, if◌then◌else◌, scalar, select, update, ℤ, pos, Result, ok, err, http, value_error, ◌>>=◌,
  ◌>>◌, raise_if, or_raise,
}
use quiblyx.Model.{
  Db, transaction, Budget, Key, Request, RequestState, Application, Response, LedgerEvent,
}
use quiblyx.Chat.{Payload}
use quiblyx.Hierarchy.{ancestry}
use quiblyx.Accounting.Clock.{Clock, month, today}
use quiblyx.Accounting.Budgets.{
  Bounds, bound_of, root_budget, active_budgets, in_scope, needs_renewal, check_limits,
  threshold_events,
}

abbrev pub active_key : Db → ℕ → ℕ → ℕ → Option Key
active_key db tenant key_id application_id =
    scalar
      (λ k.
        (k.tenant_id == tenant)
        && (k.id == key_id)
        && (k.application_id == application_id)
        && not k.revoked)
      db.keys

abbrev pub application_at : Db → ℕ → ℕ → Option Application
application_at db tenant application_id =
    scalar (λ a. (a.id == application_id) && (a.tenant_id == tenant)) db.applications

abbrev pub previous_request : Db → ℕ → ℕ → String → Option Request
previous_request db tenant key_id idem =
    scalar (λ r. (r.tenant_id == tenant) && (r.key_id == key_id) && str_eq r.idempotency_key idem)
      db.requests

abbrev pub is_completed : RequestState → Bool
is_completed RequestState.completed = true
is_completed _ = false

-- `bound <= 0` is refused.
abbrev pub positive : ℤ → Result ℕ
positive (pos (suc n)) = ok (suc n)
positive _ = err (value_error "reservation bound must be positive")

-- The second loop over the budgets: one round.
unfoldable pub reserve_budget : ℕ → ℕ → Bounds → Budget → Db → Db
reserve_budget tenant request_id bs b db =
    let amount = bound_of bs b.unit in
    threshold_events (record b { reserved = b.reserved + amount })
      (record db {
        budgets =
            update (λ r. r.id == b.id) (λ r. record r { reserved = r.reserved + amount })
              db.budgets;
        reservations =
            record {
              tenant_id = tenant;
              request_id = request_id;
              budget_id = b.id;
              amount = amount;
              settled = false;
            }
            ∷ db.reservations;
        ledger =
            record {
              tenant_id = tenant;
              request_id = request_id;
              budget_id = b.id;
              amount = amount;
              event = LedgerEvent.reserve;
            }
            ∷ db.ledger;
      })

unfoldable pub reserve_all : ℕ → ℕ → Bounds → List Budget → Db → Db
unfolding reserve_budget
reserve_all tenant request_id bs [] db = db
reserve_all tenant request_id bs (b ∷ rest) db =
    reserve_all tenant request_id bs rest (reserve_budget tenant request_id bs b db)

-- The budgets of the request, if the application may run and they allow the bounds.
unfoldable pub admissible : Clock → (tenant application_id : ℕ) → Bounds → Db → Result (List Budget)
admissible clock tenant application_id bs db = do
  app ← or_raise (application_at db tenant application_id) (http 403 "application_paused")
  raise_if app.paused (http 403 "application_paused")
  path ← ancestry db tenant app.group_id true
  let scopes = tenant ∷ application_id ∷ path
  let budgets = active_budgets db tenant scopes (month clock) (today clock)
  raise_if (needs_renewal budgets (select (in_scope tenant scopes) db.budgets))
      (http 403 "period_budget_renewal_required")
  check_limits bs "budget_exhausted" budgets
  ok budgets

abbrev pub request_bounds : ℕ → Option ℕ → Bounds
request_bounds bound none = record { money = bound; tokens = bound; requests = 1 }
request_bounds bound (some t) = record { money = bound; tokens = t; requests = 1 }

module _ (payload_digest : Payload → String) where
  -- A request with the same key and idempotency key was admitted before.
  unfoldable pub replay : Request → Payload → Result (ℕ × Option Response)
  replay previous payload =
      if str_eq previous.payload_hash (payload_digest payload)
      then elim previous.response [
        | some response ↦
            if is_completed previous.state && not payload.body.stream
            then ok (previous.id, some response)
            else err (http 409 "request_in_progress_or_non_replayable")
        | none ↦ err (http 409 "request_in_progress_or_non_replayable")
      ]
      else err (http 409 "idempotency_payload_conflict")

  module _ (clock : Clock) (uid tenant key_id application_id : ℕ) (idem : String)
      (payload : Payload) where
    abbrev pub new_request : ℕ → Request
    new_request bound = record {
      id = uid;
      tenant_id = tenant;
      application_id = application_id;
      key_id = key_id;
      idempotency_key = idem;
      payload_hash = payload_digest payload;
      state = RequestState.reserved;
      bound = bound;
      cost = none;
      input_tokens = pos 0;
      output_tokens = pos 0;
      response = none;
      model = "mock-text-v1";
      period = month clock;
      contract_id = none;
      contract_step = none;
    }

    -- The answer and the new state; the answer's second part is the stored response of a replay.
    unfoldable pub admit_body : ℕ → Option ℕ → Db → Result ((ℕ × Option Response) × Db)
    unfolding replay admissible reserve_all
    admit_body bound token_bound db = do
      root ← or_raise (root_budget db tenant (month clock)) (http 403 "active_budget_required")
      key ← or_raise (active_key db tenant key_id application_id) (http 401 "invalid_key")
      elim (previous_request db tenant key_id idem) [
        | some previous ↦ (do answer ← replay previous payload; ok (answer, db))
        | none ↦ (do
          budgets ← admissible clock tenant application_id (request_bounds bound token_bound) db
          ok (
            (uid, none),
            reserve_all tenant uid (request_bounds bound token_bound) budgets
                (record db { requests = new_request bound ∷ db.requests }),
          ))
      ]

    -- The token bound is an integer that nothing checks; `chat` passes one that is never negative.
    unfoldable pub admit : ℤ → Option ℕ → Db → Result (ℕ × Option Response) × Db
    unfolding admit_body
    admit bound token_bound db = elim (positive bound) [
      | ok n ↦ transaction (admit_body n token_bound) db
      | err e ↦ (err e, db)
    ]
