-- ===== src/Gateway/Chats.antt =====
-- services/gateway/main.py, `chat`: admission, the guards before dispatch, the generator and what
-- the handler returns. The counter in Redis, the place of a cancellation and what PyJWT decodes are
-- inputs.
pub mod Admissions
pub mod Cancellations
pub mod Servings
pub mod Courses
pub mod Releases
pub mod Endings
use quiblyx.Common.{
  ℕ, zero, suc, ◌+◌, ◌*◌, Bool, true, false, ◌&&◌, not, Option, none, some, List, [], ◌∷◌, ◌++◌,
  map, String, str_eq, ltb, leb, ◌==◌, if◌then◌else◌, length, pos, Result, ok, err, Error, http,
  ◌>>=◌, ◌>>◌, raise_if, Char,
}
use quiblyx.Model.{attempt, and_then, Db, RequestState, Response}
use quiblyx.Chat.{Chat, Fault, Payload, model_dump}
use quiblyx.Accounting.Clock.{Clock}
use quiblyx.Accounting.Admission.{admit}
use quiblyx.Accounting.Contracts.{Claims, Step, admit_contract}
use quiblyx.Accounting.Settlement.{Usage, transition}
use quiblyx.Accounting.Closing.{settle}
use quiblyx.Provider.{bound, chunks, input_units, joined}
use quiblyx.Gateway.{result}
use quiblyx.Gateway.Authentication.{authenticate}
use quiblyx.Gateway.Awaits.{
  Await, Reply, admission_await, dispatch_await, is_at_authentication, is_at_capacity,
  is_before_stream, release_await, to_thread,
}
use quiblyx.Gateway.Streams.{Delivery, Departure, Ending, StreamEvent, execute}

-- What the counter of the tenant's calls in this minute answers.
pub data Capacity : Type 0 where
  counted : ℕ → Capacity
  redis_error : Capacity

abbrev pub is_before_dispatch : Fault → Bool
is_before_dispatch Fault.before_dispatch = true
is_before_dispatch _ = false

-- The guards between admission and dispatch.
unfoldable pub guard_dispatch : Capacity → Chat → Result (Unit {0})
guard_dispatch Capacity.redis_error chat = err (http 503 "capacity_authority_unavailable")
guard_dispatch (Capacity.counted n) chat = do
  raise_if (ltb 600 n) (http 429 "rate_limited")
  raise_if (is_before_dispatch chat.mock_fault) (http 503 "upstream_unavailable")

-- `settle(tenant, rid, 0, pre_dispatch=True)`
abbrev pub not_sent : Usage
not_sent = record {
  cost = pos 0;
  input_tokens = pos 0;
  output_tokens = pos 0;
  response = none;
  pre_dispatch = true;
}

-- `async for response in execute(False): return response`. A generator without an event and
-- without an exception does not occur; the source would return `None`.
abbrev pub returned : ℕ → Delivery → Result Reply
returned rid d = elim d.ending [
  | Ending.timed_out ↦ ok (Reply.unavailable rid)
  | Ending.raised e ↦ err e
  | Ending.cancelled ↦ ok Reply.nothing
  | Ending.finished ↦ elim d.events [
    | StreamEvent.whole response ∷ _ ↦ ok (Reply.completion response)
    | _ ↦ ok Reply.nothing
  ]
]

-- What the request's caller and the world outside send.
pub record ChatCall : Type 0 where
  pub body : Chat
  pub authorization : String
  pub idempotency_key : String
  pub spend_contract : String
  pub contract_step : String
  pub capacity : Capacity
  pub departure : Departure
  pub clock : Clock
  pub uid : ℕ
  pub drawn_key : String

-- A dispatched request: the generator is run, or handed over as the body of a stream, which a caller
-- who has gone never starts.
unfoldable pub generate : ChatCall → (tenant rid : ℕ) → Option ℕ → Db → Result Reply × Db
unfolding execute
generate call tenant rid contract db =
    let d =
      execute tenant rid call.body contract call.contract_step call.body.stream call.departure db in
    if call.body.stream
    then if is_before_stream call.departure
      then (ok Reply.nothing, db)
      else (ok (Reply.streaming rid contract d.events d.ending), d.db)
    else (returned rid d, d.db)

-- The part of the handler after admission.
unfoldable pub serve : ChatCall → (tenant rid : ℕ) → Option ℕ → Db → Result Reply × Db
unfolding guard_dispatch generate settle transition
serve call tenant rid contract db =
    if is_at_capacity call.departure
    then (ok Reply.nothing, db)
    else elim (guard_dispatch call.capacity call.body) [
      | err e ↦
          to_thread (release_await call.departure) (settle tenant rid not_sent db) db
            (λ _ db'. (err e, db'))
      | ok _ ↦
          to_thread (dispatch_await call.departure)
            (transition tenant rid RequestState.dispatched db) db
            (λ _ db'. generate call tenant rid contract db')
    ]

abbrev pub usage_bound : Chat → ℕ
usage_bound body = input_units body + body.max_tokens

-- `idempotency_key or str(uuid.uuid4())`
abbrev pub idem_of : ChatCall → String
idem_of call = if str_eq call.idempotency_key "" then call.drawn_key else call.idempotency_key

abbrev pub step_call : ChatCall → Step
step_call call = record {
  cost_bound = bound call.body;
  token_bound = usage_bound call.body;
  model = call.body.model;
  name = call.contract_step;
}

-- The three claims that name the caller.
abbrev pub is_principal : Claims → (tenant key_id application_id : ℕ) → Bool
is_principal claims tenant key_id application_id =
    (claims.tenant_id == tenant)
    && (claims.key_id == key_id)
    && (claims.application_id == application_id)

-- A replay is returned, and a new request is served.
unfoldable pub proceed :
    ChatCall → (tenant : ℕ) → ℕ × Option Response × Option ℕ → Db → Result Reply × Db
unfolding serve
proceed call tenant x db = elim x.1 [
  | some response ↦ (ok (Reply.completion response), db)
  | none ↦ serve call tenant x.0 x.2 db
]

module _ (decode : String → Option Claims) where
  -- `verify_contract_token`: what PyJWT does not accept is status 401.
  abbrev pub verify_contract_token : String → Result Claims
  verify_contract_token token = elim (decode token) [
    | some claims ↦ ok claims
    | none ↦ err (http 401 "invalid_spend_contract")
  ]

  -- The claims of the contract that the caller presents, if it presents one.
  unfoldable pub contract_claims :
      ChatCall → (tenant key_id application_id : ℕ) → Result (Option Claims)
  contract_claims call tenant key_id application_id =
      if str_eq call.spend_contract "" then ok none else (do
        claims ← verify_contract_token call.spend_contract
        raise_if (not (is_principal claims tenant key_id application_id))
            (http 403 "contract_principal_mismatch")
        ok (some claims))

module _ (payload_digest : Payload → String) where
  -- The request, the stored answer of a replay, and the contract.
  unfoldable pub admit_call :
      ChatCall
      → (tenant key_id application_id : ℕ) → Option Claims
      → Db
      → Result (ℕ × Option Response × Option ℕ) × Db
  unfolding admit admit_contract
  admit_call call tenant key_id application_id none db =
      and_then
        (admit payload_digest call.clock call.uid tenant key_id application_id (idem_of call)
          (model_dump call.body) (pos (bound call.body)) (some (usage_bound call.body)) db)
        (λ x db'. (ok (x.0, x.1, none), db'))
  admit_call call tenant key_id application_id (some claims) db =
      and_then
        (admit_contract payload_digest call.clock call.uid claims (idem_of call)
          (model_dump call.body) (step_call call) db)
        (λ x db'. (ok (x.0, x.1, some x.2), db'))

module _ (payload_digest : Payload → String) (decode : String → Option Claims)
    (digest : String → String) where
  unfoldable pub chat : ChatCall → Db → Result Reply × Db
  unfolding authenticate contract_claims admit_call proceed
  chat call db =
      if is_at_authentication call.departure
      then (ok Reply.nothing, db)
      else elim (authenticate digest db call.authorization) [
        | err e ↦ (err e, db)
        | ok (tenant, key_id, application_id) ↦
            elim (contract_claims decode call tenant key_id application_id) [
              | err e ↦ (err e, db)
              | ok claims ↦
                  to_thread (admission_await call.departure)
                    (admit_call payload_digest call tenant key_id application_id claims db) db
                    (proceed call tenant)
            ]
      ]
