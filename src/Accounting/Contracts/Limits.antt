-- ===== src/Accounting/Contracts/Limits.antt =====
-- docs/SPEND_CONTRACTS.md: settled usage and outstanding steps of a contract never pass its
-- maximum, under every call of packages/domain/accounting.py.
pub mod Calls
use quiblyx.Common.{
  ℕ, zero, suc, ◌+◌, ◌≤◌, ◌≡◌, refl, sym, ◌∙◌, ap, subst, ◌⊎◌, inl, inr, Bool, true, false, ◌&&◌,
  ◌==◌, &&_true, ==_iff, Bool-cases, Option, none, some, Option-cases, List, [], ◌∷◌, map, arith,
  String, ltb, leb, ltb_false→le, if◌then◌else◌, contains, update, All, All-map, All-zip,
  All-update, Distinct, Distinct-update, only_row, scalar_hit, ℤ, pos, negsuc, Result, ok, err,
  Result-cases, >>=-eq-ok, raise_if-eq-ok,
}
use quiblyx.Model.{
  Db, transaction-keeps, SpendContract, Request, Response, RequestState, ContractState,
  ContractAllocation,
}
use quiblyx.Accounting.Settlement.{Usage, within}
use quiblyx.Accounting.Settlement.Rounds.{within-eq-ok}
use quiblyx.Accounting.Contracts.{Step, allocated, check_capacity, contract_at, is_contract}
use quiblyx.Accounting.Closing.{settled_contract, tokens_exceed, add_tokens, step_tokens}

pub record IsCapped (c : SpendContract) : Type 0 where
  pub cost : c.spent_cost + c.outstanding_cost ≤ c.max_cost
  pub tokens : c.spent_tokens + c.outstanding_tokens ≤ c.max_tokens
  pub steps : c.steps_started ≤ c.max_steps

-- Contracts have distinct identifiers, and each is within its maximum.
pub record AreCapped (db : Db) : Type 0 where
  pub distinct : Distinct (map (λ c. c.id) db.contracts)
  pub capped : All IsCapped db.contracts

-- Only the table of the contracts matters.
pub capped_frame : (db db' : Db) → db'.contracts ≡ db.contracts → AreCapped db → AreCapped db'
capped_frame db db' same h = record { distinct = rw same h.distinct; capped = rw same h.capped }

-- The row that a query by tenant and identifier finds is the only one that an update changes.
pub contract_at-only :
    (db : Db) (t i : ℕ) (c : SpendContract)
    → AreCapped db
    → contract_at db t i ≡ some c
    → All (λ x. x.id ≡ i → x ≡ c) db.contracts
contract_at-only db t i c h e =
    only_row (λ x. x.id) _ i db.contracts c
      (λ x p. (==_iff x.id i).0 (&&_true (x.tenant_id == t) _ p).1) h.distinct e

-- The capacity that an allocation checks.
pub check_capacity-IsCapped :
    (st : Step) (c : SpendContract) → check_capacity st c ≡ ok tt → IsCapped (allocated st c)
unfolding check_capacity
check_capacity-IsCapped st c e = record {
  cost = ground arith;
  tokens = ground arith;
  steps = ground arith;
}

add_tokens-le :
    (spent n limit : ℕ) (z : ℤ)
    → tokens_exceed z limit ≡ false
    → add_tokens spent z ≡ ok n
    → n ≤ spent + limit
add_tokens-le spent n limit (pos m) h e = ground arith
add_tokens-le spent n limit (negsuc m) h e = ground arith

-- A settlement moves what was outstanding to what is spent, or gives it back.
pub settled_contract-IsCapped :
    (a : ContractAllocation) (u : Usage) (cost spent : ℕ) (z : ℤ) (c : SpendContract)
    → cost ≤ a.cost_bound
    → tokens_exceed z a.token_bound ≡ false
    → ltb c.outstanding_cost a.cost_bound ≡ false
    → ltb c.outstanding_tokens a.token_bound ≡ false
    → (if u.pre_dispatch then ok c.spent_tokens else add_tokens c.spent_tokens z) ≡ ok spent
    → IsCapped c
    → IsCapped (settled_contract a u cost spent c)
settled_contract-IsCapped a u cost spent z c fits exceed cost_ok tokens_ok total h =
    elim (Bool-cases u.pre_dispatch) [
      | inl released ↦ rw released (omega (arith, h.cost, h.tokens, h.steps))
      | inr used ↦ rw used (
          omega (
            arith,
            ltb_false→le _ _ cost_ok,
            ltb_false→le _ _ tokens_ok,
            add_tokens-le c.spent_tokens spent a.token_bound z exceed (rw used at total),
          ))
    ]

-- An update of the contract that was found keeps the limits, if its new row is within them.
pub update_contract-AreCapped :
    (db db' : Db) (t i : ℕ) (c : SpendContract) (f : SpendContract → SpendContract)
    → AreCapped db
    → contract_at db t i ≡ some c
    → ((x : SpendContract) → (f x).id ≡ x.id)
    → (IsCapped c → IsCapped (f c))
    → db'.contracts ≡ update (is_contract t c.id) f db.contracts
    → AreCapped db'
update_contract-AreCapped db db' t i c f h e keeps capped result =
    capped_frame (record db { contracts = update (is_contract t c.id) f db.contracts }) db' result
      (record {
        distinct = Distinct-update (λ x. x.id) (is_contract t c.id) f db.contracts keeps h.distinct;
        capped =
            All-update (λ x. IsCapped x × (x.id ≡ i → x ≡ c)) IsCapped (is_contract t c.id) f
              db.contracts
              (λ x k. elim (Bool-cases (is_contract t c.id x)) [
                | inr other ↦ rw other k.0
                | inl same ↦
                    let only =
                      k.1 ((==_iff x.id c.id).0 (&&_true (x.tenant_id == t) _ same).1 ∙ named) in
                    rw (same, only) (capped (subst IsCapped only k.0))
              ])
              (All-zip _ _ db.contracts h.capped (contract_at-only db t i c h e));
      })
  where
    named : c.id ≡ i
    named = (==_iff c.id i).0 (&&_true (c.tenant_id == t) _ (scalar_hit _ db.contracts c e)).1
