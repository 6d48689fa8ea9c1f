-- ===== src/Examples/Outbox.antt =====
-- The worker and the HTTP guard at the example organisation.
use quiblyx.Common.{
  Bool, ◌≡◌, refl, true, false, some, none, List, [], ◌∷◌, arith, ok, err, http, value_error,
  select, leb, if◌then◌else◌, ◌>>◌,
}
use quiblyx.Model.{Db, Event, BudgetUnit, monthly, budget_threshold, usage_settled}
use quiblyx.Worker.{Mail, drain, is_pending}
use quiblyx.Worker.Deliveries.{Delivers, drain-Delivers}
use quiblyx.Worker.Backlog.{drain_times, drain_times-empties}
use quiblyx.Http.{Inbound, part, other, body_limit, check_length, observe}
use quiblyx.Http.Bodies.{body_size, observe_lem}
use quiblyx.Examples.{start}

abbrev reached : Event
reached = record {
  id = 0;
  tenant_id = 1;
  payload = budget_threshold 100 85 BudgetUnit.money (monthly 5);
  delivered = false;
  dedup_key = some (1, 100, 85);
}

abbrev outbox : Db
outbox = record start {
  events =
      record {
        id = 1;
        tenant_id = 1;
        payload = usage_settled 900;
        delivered = false;
        dedup_key = none;
      }
      ∷ reached
      ∷ [];
}

abbrev unlocked : Event → Bool
unlocked e = false

abbrev takes_all : Mail → Bool
takes_all m = true

abbrev takes_none : Mail → Bool
takes_none m = false

drain_mails :
    (drain unlocked takes_all outbox).0
    ≡ record { mails = record { event = 0; tenant = 1; threshold = 85 } ∷ []; failed = false }
unfolding drain
drain_mails = refl

-- A refused mail rolls the marks of its tenant back.
drain_fails : (drain unlocked takes_none outbox).1 ≡ outbox
unfolding drain
drain_fails = refl

drain-Delivers_example :
    Delivers
      (drain unlocked takes_all outbox).0.mails
      outbox.events
      (drain unlocked takes_all outbox).1.events
drain-Delivers_example = drain-Delivers unlocked takes_all outbox

drain_times-empties_example :
    select (is_pending unlocked 1) (drain_times unlocked takes_all (λ m. refl) 1 outbox).events ≡ []
drain_times-empties_example =
    drain_times-empties unlocked takes_all (λ m. refl) 1 1 outbox refl (omega arith)

abbrev upload : List Inbound
upload = part (1 ∷ 2 ∷ []) ∷ other ∷ part (3 ∷ []) ∷ []

observe_lem_example : observe none upload ≡ (
    check_length none
    >> (if leb (body_size upload) body_limit
        then ok upload
        else err (http 413 "request_too_large")))
observe_lem_example = observe_lem none upload

length_read : check_length (some "600000") ≡ ok tt
unfolding check_length
length_read = refl

length_refused : check_length (some "600001") ≡ err (http 413 "request_too_large")
unfolding check_length
length_refused = refl

-- A superscript passes `isdigit`, and `int` raises.
length_raises : check_length (some "²") ≡ err (value_error "invalid literal for int()")
unfolding check_length
length_raises = refl
