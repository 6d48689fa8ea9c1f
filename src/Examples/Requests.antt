-- ===== src/Examples/Requests.antt =====
-- Requests at the example organisation: a replay, and a request along a history of calls.
use quiblyx.Common.{
  subst, sym, inl, ℕ, ◌≡◌, refl, false, none, some, pos, List, [], ◌∷◌, ok, Option,
}
use quiblyx.Model.{Db, monthly, Request, RequestState, Response}
use quiblyx.Hierarchy.{ancestry, climb}
use quiblyx.Accounting.Budgets.{threshold_events, needs_renewal, active_budgets, check_limits}
use quiblyx.Accounting.Admission.{admit, replay}
use quiblyx.Accounting.Admission.Idempotency.{IsAnswerable, IsOnly, IsRow, IsStored, admit-IsStored}
use quiblyx.Accounting.Closing.{settle}
use quiblyx.Accounting.Settlement.{Usage, transition, request_at}
use quiblyx.Accounting.Settlement.Life.{Continues}
use quiblyx.Accounting.Settlement.Life.Calls.{run-Continues}
use quiblyx.Accounting.Calls.{Call, run}
use quiblyx.Examples.{noon, digest, greeting, start}

abbrev answer : Response
answer = record {
  request_id = 900;
  content = "Hi";
  prompt_tokens = 5;
  completion_tokens = 2;
  total_tokens = 7;
  cost_microusd = 9;
  spend_contract_id = none;
  contract_step = none;
}

abbrev answered : Usage
answered = record {
  cost = pos 9;
  input_tokens = pos 5;
  output_tokens = pos 2;
  response = some answer;
  pre_dispatch = false;
}

abbrev pub request : Call
request = Call.admits noon 900 1 3 2 "a" greeting (pos 50) (some 20)

-- One request, admitted.
abbrev waiting : Db
waiting = run digest (request ∷ []) start

-- The same request, answered.
abbrev finish : List Call
finish = Call.transitions 1 900 RequestState.dispatched ∷ Call.settles 1 900 answered ∷ []

abbrev done : Db
done = run digest finish waiting

abbrev pub waiting_row : Request
waiting_row = record {
  id = 900;
  tenant_id = 1;
  application_id = 2;
  key_id = 3;
  idempotency_key = "a";
  payload_hash = "org-balanced";
  state = RequestState.reserved;
  bound = 50;
  cost = none;
  input_tokens = pos 0;
  output_tokens = pos 0;
  response = none;
  model = "mock-text-v1";
  period = monthly 5;
  contract_id = none;
  contract_step = none;
}

abbrev done_row : Request
done_row = record waiting_row {
  state = RequestState.completed;
  cost = some 9;
  input_tokens = pos 5;
  output_tokens = pos 2;
  response = some answer;
}

request_waits : request_at waiting 1 900 ≡ some waiting_row
unfolding run admit ancestry climb needs_renewal active_budgets check_limits threshold_events
request_waits = refl

request_done : request_at done 1 900 ≡ some done_row
unfolding run admit ancestry climb needs_renewal active_budgets check_limits threshold_events
    transition settle
request_done = refl

run-Continues_example : Continues 1 900 waiting_row (run digest finish waiting)
run-Continues_example =
    run-Continues 1 900 waiting_row digest finish waiting (tt, (tt, tt)) request_waits

-- The second time, the same answer is found.
request_replayed :
    admit digest noon 901 1 3 2 "a" greeting (pos 50) (some 20) done ≡ (ok (900, some answer), done)
unfolding run admit ancestry climb needs_renewal active_budgets check_limits threshold_events
    transition settle replay
request_replayed = refl

only_row : done.requests ≡ done_row ∷ []
unfolding run admit ancestry climb needs_renewal active_budgets check_limits threshold_events
    transition settle
only_row = refl

admit-IsStored_example :
    ((admit digest noon 901 1 3 2 "a" greeting (pos 50) (some 20) done).1 ≡ done)
    × ((x : ℕ × Option Response)
        → (admit digest noon 901 1 3 2 "a" greeting (pos 50) (some 20) done).0 ≡ ok x
        → IsStored digest done_row greeting x)
    × ((response : Response)
        → IsAnswerable digest noon 1 3 2 done_row response greeting done
        → (admit digest noon 901 1 3 2 "a" greeting (pos 50) (some 20) done).0
          ≡ ok (900, some response))
admit-IsStored_example =
    admit-IsStored digest noon 901 1 3 2 "a" greeting 49 (some 20) done_row done
      (subst (IsRow done_row) (sym only_row) (inl refl)) (refl, refl, refl)
      (subst (IsOnly 1 3 "a" done_row) (sym only_row) (λ made. refl, tt))
