-- ===== src/Control/Contracts/Revocation.antt =====
-- services/control_api/main.py, `revoke_contract`, against every later call of
-- packages/domain/accounting.py.
use quiblyx.Common.{
  ℕ, ◌≡◌, refl, sym, ◌∙◌, ap, subst, inl, inr, true, false, Bool, Bool-cases, none, List,
  Option-cases, arith, String, scalar, scalar-update, scalar_hit, update, is_some, Result, ok, err,
  http,
}
use quiblyx.Model.{Db, and_then, and_then-keeps, ContractState}
use quiblyx.Chat.{Payload}
use quiblyx.Security.{authorize}
use quiblyx.Accounting.Clock.{Clock}
use quiblyx.Accounting.Calls.{AreFreshCalls, Call, run}
use quiblyx.Accounting.Closing.{close_spend_contract}
use quiblyx.Accounting.Contracts.{Claims, Step, admit_contract, contract_at, is_contract}
use quiblyx.Accounting.Contracts.Inactive.{
  IsInactive, admit_contract-inactive, close_spend_contract-IsInactive, run-IsInactive,
}
use quiblyx.Control.Common.{authorized, authorized-eq-ok}
use quiblyx.Control.Contracts.{
  RevocationAnswer, close_revoked, revoke_body, revoke_contract, revoked,
}

revoke_body-IsInactive :
    (t i : ℕ) (subject : String) (j : ℕ) (retained : Bool) (db db' : Db)
    → revoke_body t i subject db ≡ ok (RevocationAnswer.is_revoked j retained, db')
    → IsInactive t i db'
unfolding revoke_body
revoke_body-IsInactive t i subject j retained db db' e = elim (Option-cases (contract_at db t i)) [
  | inl missing ↦ absurd (ground arith)
  | inr (c, found) ↦ elim (Bool-cases (is_some c.closed_at)) [
    | inl closed ↦ absurd (ground arith)
    | inr unclosed ↦
        let rows : db'.contracts ≡ update (is_contract t c.id) revoked db.contracts =
          ground arith in
        record {
          contract = revoked c;
          found =
              ap (scalar (is_contract t i)) rows
              ∙ scalar-update (is_contract t i) (is_contract t c.id) revoked db.contracts
                  (λ x. refl)
              ∙ ground (arith, found, scalar_hit (is_contract t i) db.contracts c found);
          inactive = refl;
        }
  ]
]

-- The closing that may follow keeps the contract revoked.
close_revoked-IsInactive :
    (clock : Clock) (t i : ℕ) (answer : RevocationAnswer) (db : Db)
    → IsInactive t i db
    → IsInactive t i (close_revoked clock t i answer db).1
unfolding close_revoked
close_revoked-IsInactive clock t i (RevocationAnswer.is_revoked j true) db h = h
close_revoked-IsInactive clock t i (RevocationAnswer.is_revoked j false) db h =
    and_then-keeps (IsInactive t i) (close_spend_contract clock t i ContractState.revoked db) _
      (close_spend_contract-IsInactive t i clock t i ContractState.revoked db h) (λ _ _ k. k)
close_revoked-IsInactive clock t i (RevocationAnswer.was_closed j state) db h = h

module _ (clock : Clock) (t i : ℕ) (subject : String) (db : Db) where
  revoke_contract-IsInactive :
      (out : Result RevocationAnswer × Db) (j : ℕ) (retained : Bool) (db' : Db)
      → authorized (authorize db t subject true none none) (λ _. revoke_body t i subject) db ≡ out
      → and_then out (close_revoked clock t i) ≡ (ok (RevocationAnswer.is_revoked j retained), db')
      → IsInactive t i db'
  unfolding close_revoked
  revoke_contract-IsInactive (err x, d) j retained db' eq e = absurd (ground arith)
  revoke_contract-IsInactive (ok (RevocationAnswer.was_closed k s), d) j retained db' eq e =
      absurd (ground arith)
  revoke_contract-IsInactive (ok (RevocationAnswer.is_revoked k r), d) j retained db' eq e =
      let (role, permitted, done) =
        authorized-eq-ok (authorize db t subject true none none) (λ _. revoke_body t i subject) db
          (RevocationAnswer.is_revoked k r) d eq in
      subst (IsInactive t i) (ap (λ out. out.1) e) (
        close_revoked-IsInactive clock t i (RevocationAnswer.is_revoked k r) d
          (revoke_body-IsInactive t i subject k r db d done))

  -- After a contract is revoked, and whatever calls follow, every token that names it is refused
  -- and its call changes nothing, with outstanding steps or without. Each call must draw an
  -- identifier not in use.
  pub revoke_contract-IsLasting :
      (digest : Payload → String) (cs : List Call) (j : ℕ) (retained : Bool) (db' : Db)
      → revoke_contract clock t i subject db ≡ (ok (RevocationAnswer.is_revoked j retained), db')
      → AreFreshCalls digest cs db'
      → (clock' : Clock) (uid : ℕ) (claims : Claims) (idem : String) (p : Payload) (st : Step)
      → claims.tenant_id ≡ t
      → claims.sub ≡ i
      → admit_contract digest clock' uid claims idem p st (run digest cs db')
        ≡ (err (http 401 "inactive_spend_contract"), run digest cs db')
  unfolding revoke_contract
  revoke_contract-IsLasting digest cs j retained db' e fresh clock' uid claims idem p st tenant
        sub =
      let later =
        run-IsInactive t i digest cs db' fresh
          (revoke_contract-IsInactive _ j retained db' refl e) in
      admit_contract-inactive digest clock' uid claims idem p st (run digest cs db') (
        subst (λ n. IsInactive n claims.sub (run digest cs db')) (sym tenant)
          (subst (λ n. IsInactive t n (run digest cs db')) (sym sub) later))
