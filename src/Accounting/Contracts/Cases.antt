-- ===== src/Accounting/Contracts/Cases.antt =====
-- How `create_spend_contract` and `admit_contract` (packages/domain/accounting.py) can succeed.
use quiblyx.Common.{
  ℕ, ◌≡◌, ◌≢◌, ◌⊎◌, inl, inr, true, false, Option, none, some, Option-cases, List, ◌∷◌, arith,
  String, ok, Result-cases,
}
use quiblyx.Model.{Db, transaction-keeps, Application, Request, Response, SpendContract}
use quiblyx.Chat.{Payload}
use quiblyx.Hierarchy.{ancestry}
use quiblyx.Accounting.Clock.{Clock, month, today}
use quiblyx.Accounting.Budgets.{active_budgets, check_limits}
use quiblyx.Accounting.Admission.{application_at, previous_request}
use quiblyx.Accounting.Contracts.{
  Claims, Step, contract_at, check_principal, check_capacity, replay_step, allocate,
  admit_contract_body, admit_contract,
}
use quiblyx.Accounting.Creation.{
  Envelope, envelope_bounds, envelope_is_empty, new_contract, reserve_contract,
  create_contract_body,
}

module _ (clock : Clock) (uid tenant application_id key_id : ℕ) (e : Envelope) where
  -- The envelope is reserved on every active budget of the application's scopes.
  pub record IsCreated (x : ℕ) (db db' : Db) : Type 0 where
    pub application : Application
    pub path : List ℕ
    pub found : application_at db tenant application_id ≡ some application
    pub climbed : ancestry db tenant application.group_id true ≡ ok path
    pub positive : envelope_is_empty e ≡ false
    pub allowed :
        check_limits
          (envelope_bounds e)
          "contract_budget_exhausted"
          (active_budgets db tenant (tenant ∷ application_id ∷ path) (month clock) (today clock))
        ≡ ok tt
    pub answer : x ≡ uid
    pub result :
        db'
        ≡ reserve_contract tenant uid
            (envelope_bounds e)
            (active_budgets db tenant (tenant ∷ application_id ∷ path) (month clock) (today clock))
            (record db {
              contracts = new_contract uid tenant application_id key_id e ∷ db.contracts;
            })

  pub create_contract_body-cases :
      (x : ℕ) (db db' : Db)
      → create_contract_body clock uid tenant application_id key_id e db ≡ ok (x, db')
      → IsCreated x db db'
  unfolding create_contract_body
  create_contract_body-cases x db db' h =
      elim (Option-cases (application_at db tenant application_id)) [
        | inl missing ↦ absurd (ground arith)
        | inr (app, found) ↦ elim (Result-cases (ancestry db tenant app.group_id true)) [
          | inl (_, refused) ↦ absurd (ground arith)
          | inr (path, climbed) ↦ record {
            application = app;
            path = path;
            found = found;
            climbed = climbed;
            positive = ground arith;
            allowed = ground arith;
            answer = ground arith;
            result = ground arith;
          }
        ]
      ]

module _ (payload_digest : Payload → String) (clock : Clock) (uid : ℕ) (claims : Claims)
    (idem : String) (payload : Payload) (st : Step) where
  -- The step is new and within the contract's limits.
  pub record IsAllocated (x : ℕ × Option Response × ℕ) (db db' : Db) : Type 0 where
    pub contract : SpendContract
    pub found : contract_at db claims.tenant_id claims.sub ≡ some contract
    pub principal : check_principal clock claims payload st contract ≡ ok tt
    pub unseen : previous_request db claims.tenant_id contract.key_id idem ≡ none
    pub capacity : check_capacity st contract ≡ ok tt
    pub answer : x ≡ (uid, none, contract.id)
    pub result : db' ≡ allocate payload_digest clock uid claims idem payload st contract db

  pub record IsStepReplay (x : ℕ × Option Response × ℕ) (db db' : Db) : Type 0 where
    pub contract : SpendContract
    pub previous : Request
    pub found : contract_at db claims.tenant_id claims.sub ≡ some contract
    pub principal : check_principal clock claims payload st contract ≡ ok tt
    pub seen : previous_request db claims.tenant_id contract.key_id idem ≡ some previous
    pub answer : replay_step payload_digest previous contract payload ≡ ok (x.0, x.1)
    pub result : db' ≡ db

  -- Only a replay answers with a stored response.
  pub replay_step-ne-none :
      (previous : Request) (c : SpendContract) (x : ℕ × Option Response)
      → replay_step payload_digest previous c payload ≡ ok x
      → x.1 ≢ none
  unfolding replay_step
  replay_step-ne-none previous c x e none_stored = elim (Option-cases previous.response) [
    | inl missing ↦ ground arith
    | inr (response, stored) ↦ ground arith
  ]

  pub admit_contract_body-cases :
      (x : ℕ × Option Response × ℕ) (db db' : Db)
      → admit_contract_body payload_digest clock uid claims idem payload st db ≡ ok (x, db')
      → IsStepReplay x db db' ⊎ IsAllocated x db db'
  unfolding admit_contract_body
  admit_contract_body-cases x db db' h =
      elim (Option-cases (contract_at db claims.tenant_id claims.sub)) [
        | inl missing ↦ absurd (ground arith)
        | inr (c, found) ↦
            elim (Option-cases (previous_request db claims.tenant_id c.key_id idem)) [
              | inl unseen ↦ inr (record {
                contract = c;
                found = found;
                principal = ground arith;
                unseen = unseen;
                capacity = ground arith;
                answer = ground arith;
                result = ground arith;
              })
              | inr (previous, seen) ↦
                  elim (Result-cases (replay_step payload_digest previous c payload)) [
                    | inl (_, refused) ↦ absurd (ground arith)
                    | inr (answer, replayed) ↦ inl (record {
                      contract = c;
                      previous = previous;
                      found = found;
                      principal = ground arith;
                      seen = seen;
                      answer = ground arith;
                      result = ground arith;
                    })
                  ]
            ]
      ]

-- What holds of the database holds after a step is admitted, if its writes keep it.
pub admit_contract-keeps {ℓ} :
    (P : Db → Type ℓ) (digest : Payload → String) (clock : Clock) (uid : ℕ) (claims : Claims)
    (idem : String) (p : Payload) (st : Step) (db : Db)
    → P db
    → ((x : ℕ × Option Response × ℕ) (db' : Db)
        → IsAllocated digest clock uid claims idem p st x db db'
        → P db')
    → P (admit_contract digest clock uid claims idem p st db).1
unfolding admit_contract
admit_contract-keeps P digest clock uid claims idem p st db h keep =
    transaction-keeps P (admit_contract_body digest clock uid claims idem p st) db h λ x db' e.
      elim (admit_contract_body-cases digest clock uid claims idem p st x db db' e) [
        | inl replayed ↦ rw replayed.result h
        | inr made ↦ keep x db' made
      ]
