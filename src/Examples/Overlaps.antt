-- ===== src/Examples/Overlaps.antt =====
-- packages/domain/accounting.py: two settlements of one contract step that overlap. Both read the
-- request before either has the contract's lock, so the second works on a row that is out of date.
use quiblyx.Common.{false, ℕ, ◌≡◌, refl, none, some, pos, [], ◌∷◌, Option, ok}
use quiblyx.Model.{Db, Request}
use quiblyx.Hierarchy.{ancestry, climb}
use quiblyx.Accounting.Budgets.{threshold_events, needs_renewal, active_budgets, check_limits}
use quiblyx.Accounting.Calls.{Call, run}
use quiblyx.Accounting.Closing.{settle, settle_contract_request}
use quiblyx.Accounting.Contracts.{Step, admit_contract, contract_at}
use quiblyx.Accounting.Creation.{create_spend_contract}
use quiblyx.Accounting.Settlement.{Usage, request_at}
use quiblyx.Examples.{noon, digest, greeting, start}
use quiblyx.Examples.Books.{claims, task}

abbrev draft : Step
draft = record { cost_bound = 3; token_bound = 3; model = "org-balanced"; name = "draft" }

abbrev cheap : Usage
cheap = record {
  cost = pos 1;
  input_tokens = pos 1;
  output_tokens = pos 0;
  response = none;
  pre_dispatch = false;
}

-- Two steps are outstanding.
abbrev drafting : Db
drafting =
    run digest
      (Call.creates_contract noon 700 1 2 3 task
        ∷ Call.admits_step noon 901 claims "b" greeting draft
        ∷ Call.admits_step noon 902 claims "c" greeting draft
        ∷ [])
      start

-- What the contract has outstanding and has spent.
abbrev totals : Db → Option (ℕ × ℕ)
totals db = elim (contract_at db 1 700) [
  | some c ↦ some (c.outstanding_cost, c.spent_cost)
  | none ↦ none
]

-- The second settlement of request 901, on the row that was read before the first.
abbrev again : Option Request → Db → Option (ℕ × ℕ)
again none db = none
again (some row) db = elim (settle_contract_request row cheap db) [
  | ok (_, db') ↦ totals db'
  | _ ↦ none
]

settled_once : totals (settle 1 901 cheap drafting).1 ≡ some (3, 1)
unfolding run settle create_spend_contract admit_contract ancestry climb needs_renewal
    active_budgets check_limits threshold_events
settled_once = refl

-- The cost is charged again, and nothing is outstanding any more for request 902.
settled_twice : again (request_at drafting 1 901) (settle 1 901 cheap drafting).1 ≡ some (0, 2)
unfolding run settle settle_contract_request create_spend_contract admit_contract ancestry climb
    needs_renewal active_budgets check_limits threshold_events
settled_twice = refl
