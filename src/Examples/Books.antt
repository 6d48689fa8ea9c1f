-- ===== src/Examples/Books.antt =====
-- A history of calls at the example organisation, and the invariants along it.
use quiblyx.Common.{ℕ, false, ◌≡◌, refl, none, some, pos, List, [], ◌∷◌, arith, map}
use quiblyx.Model.{RequestState, ContractState}
use quiblyx.Hierarchy.{ancestry, climb}
use quiblyx.Accounting.Budgets.{threshold_events, needs_renewal, active_budgets, check_limits}
use quiblyx.Accounting.Admission.{admit}
use quiblyx.Accounting.Closing.{settle, close_spend_contract}
use quiblyx.Accounting.Settlement.{Usage, transition}
use quiblyx.Accounting.Contracts.{Claims, Step, admit_contract}
use quiblyx.Accounting.Creation.{Envelope, create_spend_contract}
use quiblyx.Accounting.Contracts.Limits.{AreCapped}
use quiblyx.Accounting.Contracts.Limits.Calls.{run-AreCapped}
use quiblyx.Accounting.Calls.{Call, run}
use quiblyx.Accounting.Books.{AreBooked}
use quiblyx.Accounting.Books.Calls.{run-AreBooked}
use quiblyx.Examples.{noon, digest, greeting, start}

abbrev spent_all : Usage
spent_all = record {
  cost = pos 50;
  input_tokens = pos 0;
  output_tokens = pos 0;
  response = none;
  pre_dispatch = false;
}

abbrev pub task : Envelope
task = record {
  name = "ticket";
  purpose = "answer";
  max_cost = 8;
  max_tokens = 8;
  max_steps = 2;
  allowed_models = "org-balanced" ∷ [];
  allowed_tools = [];
  data_region = "local";
  expires_at = 900;
}

abbrev pub claims : Claims
claims = record {
  sub = 700;
  tenant_id = 1;
  application_id = 2;
  key_id = 3;
  version = 1;
  scope = "spend:allocate";
}

abbrev pub step : Step
step = record { cost_bound = 5; token_bound = 3; model = "org-balanced"; name = "draft" }

-- A request, a contract with one step, their settlement and the contract's end.
abbrev history : List Call
history =
    Call.admits noon 900 1 3 2 "a" greeting (pos 50) (some 20)
    ∷ Call.creates_contract noon 700 1 2 3 task
    ∷ Call.transitions 1 900 RequestState.dispatched
    ∷ Call.settles 1 900 spent_all
    ∷ Call.admits_step noon 901 claims "b" greeting step
    ∷ Call.settles 1 901 (record spent_all { cost = pos 5 })
    ∷ Call.closes_contract noon 1 700 ContractState.completed
    ∷ []

run-history :
    map {B = ℕ × ℕ} (λ b. (b.spent, b.reserved)) (run digest history start).budgets
    ≡ (55, 0) ∷ (55, 0) ∷ []
unfolding run admit ancestry climb needs_renewal active_budgets check_limits threshold_events
    transition settle create_spend_contract admit_contract close_spend_contract
run-history = refl

start-AreBooked : AreBooked start
start-AreBooked = record { distinct = (refl, (refl, tt)); audited = omega arith }

start-AreCapped : AreCapped start
start-AreCapped = record { distinct = tt; capped = tt }

run-AreBooked_example : AreBooked (run digest history start)
run-AreBooked_example = run-AreBooked digest history start start-AreBooked

run-AreCapped_example : AreCapped (run digest history start)
unfolding run admit ancestry climb needs_renewal active_budgets check_limits threshold_events
    transition settle create_spend_contract admit_contract close_spend_contract
run-AreCapped_example =
    run-AreCapped digest history start (refl, (refl, (tt, (tt, (refl, (tt, (tt, tt)))))))
      start-AreCapped
