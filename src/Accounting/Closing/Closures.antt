-- ===== src/Accounting/Closing/Closures.antt =====
-- How `close_spend_contract` (packages/domain/accounting.py) can succeed.
use quiblyx.Common.{
  ℕ, ◌≡◌, ◌⊎◌, inl, inr, true, false, Bool-cases, some, Option-cases, arith, is_some, ok,
  Result-cases,
}
use quiblyx.Model.{transaction-keeps, Db, SpendContract, ContractState}
use quiblyx.Accounting.Clock.{Clock}
use quiblyx.Accounting.Contracts.{contract_at}
use quiblyx.Accounting.Closing.{
  close_spend_contract, is_final_state, contract_reservations_of, close_all, finish_contract,
  closing_state, close_body,
}

-- A contract is closed reservation by reservation.
pub record IsClosed (clock : Clock) (tenant contract_id : ℕ) (final : ContractState) (db db' : Db)
    : Type 0 where
  pub contract : SpendContract
  pub found : contract_at db tenant contract_id ≡ some contract
  pub unclosed : is_some contract.closed_at ≡ false
  pub no_cost : contract.outstanding_cost ≡ 0
  pub no_tokens : contract.outstanding_tokens ≡ 0
  pub released : Db
  pub rounds :
      close_all tenant contract (contract_reservations_of db tenant contract_id) db ≡ ok released
  pub result :
      db' ≡ finish_contract clock tenant contract (closing_state contract.state final) released

-- The contract was closed before.
pub record WasClosed (tenant contract_id : ℕ) (db db' : Db) : Type 0 where
  pub contract : SpendContract
  pub found : contract_at db tenant contract_id ≡ some contract
  pub closed : is_some contract.closed_at ≡ true
  pub result : db' ≡ db

pub close_body-cases :
    (clock : Clock) (tenant contract_id : ℕ) (final : ContractState) (n : ℕ) (db db' : Db)
    → close_body clock tenant contract_id final db ≡ ok (n, db')
    → WasClosed tenant contract_id db db' ⊎ IsClosed clock tenant contract_id final db db'
unfolding close_body
close_body-cases clock t i final n db db' e = elim (Option-cases (contract_at db t i)) [
  | inl missing ↦ absurd (ground arith)
  | inr (c, found) ↦ elim (Bool-cases (is_some c.closed_at)) [
    | inl closed ↦
        inl (record { contract = c; found = found; closed = closed; result = ground arith })
    | inr unclosed ↦ elim (Result-cases (close_all t c (contract_reservations_of db t i) db)) [
      | inl (_, failed) ↦ absurd (ground arith)
      | inr (released, rounds) ↦ inr (record {
        contract = c;
        found = found;
        unclosed = unclosed;
        no_cost = ground arith;
        no_tokens = ground arith;
        released = released;
        rounds = rounds;
        result = ground arith;
      })
    ]
  ]
]

-- What holds of the database holds after a contract is closed, if the writes of the closing keep
-- it.
pub close-keeps {ℓ} :
    (P : Db → Type ℓ) (clock : Clock) (t i : ℕ) (final : ContractState) (db : Db)
    → P db
    → ((db' : Db) → IsClosed clock t i final db db' → P db')
    → P (close_spend_contract clock t i final db).1
unfolding close_spend_contract
close-keeps P clock t i final db h keep = elim (Bool-cases (is_final_state final)) [
  | inr refused ↦ rw (refused, close_spend_contract) h
  | inl accepted ↦
      rw (accepted, close_spend_contract)
        (transaction-keeps P (close_body clock t i final) db h λ n db' e.
          elim (close_body-cases clock t i final n db db' e) [
            | inl before ↦ rw before.result h
            | inr closed ↦ keep db' closed
          ])
]
