-- ===== src/Examples/Chats.antt =====
-- The handler `chat` of services/gateway/main.py at the example organisation.
use quiblyx.Common.{◌≡◌, ◌⊎◌, refl, Bool, true, false, Option, none, some, String, [], ◌∷◌, ok}
use quiblyx.Model.{Db, Request, RequestState}
use quiblyx.Chat.{Fault}
use quiblyx.Hierarchy.{ancestry, climb}
use quiblyx.Accounting.Budgets.{threshold_events, needs_renewal, active_budgets, check_limits}
use quiblyx.Accounting.Settlement.{request_at}
use quiblyx.Accounting.Contracts.{Claims}
use quiblyx.Accounting.Calls.{Call as Step, run}
use quiblyx.Provider.{first}
use quiblyx.Gateway.Awaits.{Reply}
use quiblyx.Gateway.Chats.{ChatCall, Capacity, chat}
use quiblyx.Gateway.Streams.{Departure}
use quiblyx.Gateway.Chats.Courses.{IsUnserved, chat-Ends}
use quiblyx.Gateway.Chats.Servings.{IsServed}
use quiblyx.Examples.{noon, digest, hello, start}
use quiblyx.Examples.Requests.{request, waiting_row}

abbrev key_digest : String → String
key_digest secret = secret

-- No text is a token.
abbrev decode : String → Option Claims
decode token = none

abbrev call : ChatCall
call = record {
  body = hello;
  authorization = "Bearer d";
  idempotency_key = "a";
  spend_contract = "";
  contract_step = "model-call";
  capacity = Capacity.counted 1;
  departure = Departure.stays;
  clock = noon;
  uid = 900;
  drawn_key = "drawn";
}

-- What has become of the request, and whether there was an answer.
abbrev outcome : ChatCall → Option RequestState × Bool
outcome c =
    let (reply, db) = chat digest decode key_digest c start in
    (
      elim (request_at db 1 900) [ some r ↦ some r.state | none ↦ none ],
      elim reply [ ok (Reply.completion _) ↦ true | _ ↦ false ],
    )

answered : outcome call ≡ (some RequestState.completed, true)
unfolding chat ancestry climb needs_renewal active_budgets check_limits threshold_events first
answered = refl

full :
    outcome (record call { capacity = Capacity.counted 601 }) ≡ (some RequestState.released, false)
unfolding chat ancestry climb needs_renewal active_budgets check_limits threshold_events first
full = refl

late :
    outcome (record call { body = record hello { mock_fault = Fault.timeout } })
    ≡ (some RequestState.uncertain, false)
unfolding chat ancestry climb needs_renewal active_budgets check_limits threshold_events first
late = refl

left_alone :
    outcome (record call { departure = Departure.in_stream 2 })
    ≡ (some RequestState.uncertain, false)
unfolding chat ancestry climb needs_renewal active_budgets check_limits threshold_events first
left_alone = refl

-- A task that is cancelled while the counter is asked leaves the request reserved.
left_reserved :
    outcome (record call { departure = Departure.at_capacity })
    ≡ (some RequestState.reserved, false)
unfolding chat ancestry climb needs_renewal active_budgets check_limits threshold_events first
left_reserved = refl

-- One that is cancelled while the dispatch is written leaves it dispatched.
left_dispatched :
    outcome (record call { departure = Departure.at_dispatch true })
    ≡ (some RequestState.dispatched, false)
unfolding chat ancestry climb needs_renewal active_budgets check_limits threshold_events first
left_dispatched = refl

unknown : outcome (record call { authorization = "Bearer e" }) ≡ (none, false)
unfolding chat ancestry climb needs_renewal active_budgets check_limits threshold_events first
unknown = refl

chat-Ends_example :
    IsUnserved digest decode key_digest call start (chat digest decode key_digest call start)
    ⊎ IsServed call (chat digest decode key_digest call start)
chat-Ends_example = chat-Ends digest decode key_digest call start (refl, (refl, tt)) refl

-- The request of the example, dispatched.
abbrev dispatched : Db
dispatched = run digest (request ∷ Step.transitions 1 900 RequestState.dispatched ∷ []) start

abbrev dispatched_row : Request
dispatched_row = record waiting_row { state = RequestState.dispatched }
