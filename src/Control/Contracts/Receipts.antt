-- ===== src/Control/Contracts/Receipts.antt =====
-- services/control_api/main.py, `contract_receipt`, against the limits that
-- packages/domain/accounting.py keeps.
use quiblyx.Common.{
  ℕ, ◌+◌, ◌-◌, ◌≤◌, ◌≡◌, inl, inr, false, none, some, Option-cases, arith, String, ℤ, pos, ◌-ℤ◌,
  ◌>>=◌, List, subst, sym, ap, ◌∙◌, ok, scalar-All,
}
use quiblyx.Model.{Db, SpendContract}
use quiblyx.Chat.{Payload}
use quiblyx.Security.{authorize}
use quiblyx.Accounting.Contracts.{contract_at, is_contract}
use quiblyx.Accounting.Contracts.Limits.{AreCapped, IsCapped}
use quiblyx.Accounting.Contracts.Limits.Calls.{run-AreCapped}
use quiblyx.Accounting.Calls.{AreFreshCalls, Call, run}
use quiblyx.Control.Common.{authorized-eq-ok, contract_row}
use quiblyx.Control.Contracts.{Receipt, contract_receipt, receipt_of}

minus_twice : (a b c : ℕ) → b + c ≤ a → (pos a -ℤ pos b) -ℤ pos c ≡ pos (a - b - c)
unfolding ◌-ℤ◌
minus_twice a b c h = ground arith

minus_once : (a b : ℕ) → b ≤ a → pos a -ℤ pos b ≡ pos (a - b)
unfolding ◌-ℤ◌
minus_once a b h = ground arith

-- What is left of a maximum is not negative, and adds up with what is used.
abbrev pub IsRest : ℤ → (used max : ℕ) → Type 0
IsRest rest used max = (n : ℕ) × (rest ≡ pos n) × (n + used ≡ max)

pub record IsBalanced (r : Receipt) : Type 0 where
  pub cost :
      IsRest r.remaining_cost
        (r.contract.spent_cost + r.contract.outstanding_cost)
        r.contract.max_cost
  pub tokens :
      IsRest r.remaining_tokens
        (r.contract.spent_tokens + r.contract.outstanding_tokens)
        r.contract.max_tokens
  pub steps : IsRest r.remaining_steps r.contract.steps_started r.contract.max_steps

IsRest-twice :
    (max spent outstanding : ℕ)
    → spent + outstanding ≤ max
    → IsRest ((pos max -ℤ pos spent) -ℤ pos outstanding) (spent + outstanding) max
IsRest-twice max spent outstanding h =
    (max - spent - outstanding, minus_twice max spent outstanding h, omega (arith, h))

IsRest-once : (max used : ℕ) → used ≤ max → IsRest (pos max -ℤ pos used) used max
IsRest-once max used h = (max - used, minus_once max used h, omega (arith, h))

receipt_of-IsBalanced :
    (db : Db) (t i : ℕ) (c : SpendContract) → IsCapped c → IsBalanced (receipt_of db t i c)
receipt_of-IsBalanced db t i c h = record {
  cost = IsRest-twice c.max_cost c.spent_cost c.outstanding_cost h.cost;
  tokens = IsRest-twice c.max_tokens c.spent_tokens c.outstanding_tokens h.tokens;
  steps = IsRest-once c.max_steps c.steps_started h.steps;
}

-- A receipt that is returned after any history of calls writes nothing, is of the contract that
-- was asked for, and what it says remains (cost, tokens, steps) is not negative and adds up with
-- what is spent, outstanding or started to the maximum of the contract. Each call must draw an
-- identifier not in use, and the contracts must be within their envelopes, under distinct
-- identifiers, at the start.
pub contract_receipt-IsBalanced :
    (digest : Payload → String) (cs : List Call) (db : Db) (t i : ℕ) (subject : String)
    (r : Receipt) (db' : Db)
    → AreFreshCalls digest cs db
    → AreCapped db
    → contract_receipt t i subject (run digest cs db) ≡ (ok r, db')
    → (db' ≡ run digest cs db)
      × (contract_at (run digest cs db) t i ≡ some r.contract)
      × IsBalanced r
unfolding contract_receipt
contract_receipt-IsBalanced digest cs db t i subject r db' fresh capped e =
    let now : Db = run digest cs db in
    let limits = run-AreCapped digest cs db fresh capped in
    let (role, permitted, done) =
      authorized-eq-ok (authorize now t subject false none none)
        (λ _ d. contract_row d t i >>= (λ c. ok (receipt_of d t i c, d))) now r db' e in
    elim (Option-cases (contract_at now t i)) [
      | inl missing ↦ absurd (ground arith)
      | inr (c, found) ↦
          let same : r ≡ receipt_of now t i c = ground arith in
          (
            ground arith,
            found ∙ ap (λ x. some x.contract) (sym same),
            subst IsBalanced (sym same) (
                receipt_of-IsBalanced now t i c
                  (scalar-All IsCapped (is_contract t i) now.contracts c limits.capped found).0),
          )
    ]
