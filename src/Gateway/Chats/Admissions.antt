-- ===== src/Gateway/Chats/Admissions.antt =====
-- services/gateway/main.py, `chat`: what its admission leaves in the database.
use quiblyx.Common.{
  map, contains, Distinct, false, ℕ, ◌≡◌, refl, sym, ◌∙◌, ap, subst, inl, inr, Option, none, some,
  Option-cases, arith, String, pos, Result, ok, err, Error,
}
use quiblyx.Model.{
  and_then, Db, Request, RequestState, Response, transaction-eq-ok, transaction-eq-err,
}
use quiblyx.Chat.{Payload, model_dump}
use quiblyx.Accounting.Admission.{admit, new_request}
use quiblyx.Accounting.Admission.Cases.{admit-cases, admit-eq-err, replay-ne-none}
use quiblyx.Accounting.Contracts.{
  Claims, admit_contract, admit_contract_body, allocate, step_request,
}
use quiblyx.Accounting.Contracts.Cases.{admit_contract_body-cases, replay_step-ne-none}
use quiblyx.Accounting.Frames.{reserve_all-frame}
use quiblyx.Accounting.Settlement.{request_at}
use quiblyx.Provider.{bound}
use quiblyx.Gateway.Chats.Releases.{CanRelease, IsFresh-CanRelease, found_first}
use quiblyx.Gateway.Chats.Releases.Steps.{IsAllocated-CanRelease}
use quiblyx.Gateway.Chats.{ChatCall, admit_call, contract_claims, idem_of, step_call, usage_bound}

abbrev pub Outcome : Type 0
Outcome = Result (ℕ × Option Response × Option ℕ) × Db

-- What the rest of the handler needs to know of a new request.
pub record IsReserved (call : ChatCall) (tenant : ℕ) (r : Request) (db : Db) : Type 0 where
  pub found : request_at db tenant call.uid ≡ some r
  pub state : r.state ≡ RequestState.reserved
  pub uncharged : r.cost ≡ none
  pub same_bound : r.bound ≡ bound call.body
  pub same_key : r.idempotency_key ≡ idem_of call
  pub releasable : CanRelease tenant call.uid db

-- Budgets have distinct identifiers, and the one that the handler draws has no reservation.
pub record IsFit (call : ChatCall) (db : Db) : Type 0 where
  pub distinct : Distinct (map (λ b. b.id) db.budgets)
  pub unused : contains call.uid (map (λ r. r.request_id) db.reservations) ≡ false

-- An admission is refused, or finds a stored answer, both without a write, or adds the request.
pub data Admits (call : ChatCall) (tenant : ℕ) (db : Db) : Outcome → Type 0 where
  refused : (e : Error) → Admits call tenant db (err e, db)
  replayed :
      (q : ℕ) (response : Response) (c : Option ℕ)
      → Admits call tenant db (ok (q, some response, c), db)
  adds :
      (r : Request) (c : Option ℕ) (db' : Db)
      → IsReserved call tenant r db'
      → Admits call tenant db (ok (call.uid, none, c), db')

replayed_at :
    (call : ChatCall) (tenant q : ℕ) (response : Response) (c : Option ℕ) (db db' : Db)
    → db' ≡ db
    → Admits call tenant db (ok (q, some response, c), db')
replayed_at call tenant q response c db db' same =
    subst (λ d. Admits call tenant db (ok (q, some response, c), d)) (sym same)
      (Admits.replayed q response c)

refused_at :
    (call : ChatCall) (tenant : ℕ) (e : Error) (db db' : Db)
    → db' ≡ db
    → Admits call tenant db (err e, db')
refused_at call tenant e db db' same =
    subst (λ d. Admits call tenant db (err e, d)) (sym same) (Admits.refused e)

adds_at :
    (call : ChatCall) (tenant q : ℕ) (r : Request) (c : Option ℕ) (db db' : Db)
    → q ≡ call.uid
    → IsReserved call tenant r db'
    → Admits call tenant db (ok (q, none, c), db')
adds_at call tenant q r c db db' same new =
    subst (λ n. Admits call tenant db (ok (n, none, c), db')) (sym same) (Admits.adds r c db' new)

module _ (payload_digest : Payload → String) (call : ChatCall) (tenant key_id application_id : ℕ)
    (db : Db) (fit : IsFit call db) where
  budgets-Admits :
      (out : Result (ℕ × Option Response) × Db)
      → admit payload_digest call.clock call.uid tenant key_id application_id
          (idem_of call)
          (model_dump call.body)
          (pos (bound call.body))
          (some (usage_bound call.body))
          db
        ≡ out
      → Admits call tenant db (and_then out (λ x db'. (ok (x.0, x.1, none), db')))
  budgets-Admits (err e, db') eq =
      refused_at call tenant e db db' (admit-eq-err _ _ _ _ _ _ _ _ _ _ db e db' eq)
  budgets-Admits (ok (q, some response), db') eq =
      elim (admit-cases _ _ _ _ _ _ _ _ _ _ (q, some response) db db' eq) [
        | inl before ↦ replayed_at call tenant q response none db db' before.result
        | inr fresh ↦ absurd (ground (arith, fresh.answer))
      ]
  budgets-Admits (ok (q, none), db') eq =
      elim (admit-cases _ _ _ _ _ _ _ _ _ _ (q, none) db db' eq) [
        | inl before ↦ absurd (
            replay-ne-none payload_digest call.clock call.uid tenant key_id application_id
              (idem_of call) (model_dump call.body) (bound call.body) (some (usage_bound call.body))
              before.previous (q, none) before.answer refl)
        | inr fresh ↦
            adds_at call tenant q
              (new_request payload_digest call.clock call.uid tenant key_id application_id
                (idem_of call) (model_dump call.body) (bound call.body))
              none db db' (ap (λ x. x.0) fresh.answer)
              (record {
                found = found_first tenant call.uid _ db db' refl refl (
                    ap (λ d. d.requests)
                      (fresh.result ∙ reserve_all-frame tenant call.uid _ fresh.budgets _));
                state = refl;
                uncharged = refl;
                same_bound = refl;
                same_key = refl;
                releasable =
                    IsFresh-CanRelease _ _ _ _ _ _ _ _ _ _ _ db db' fit.distinct fit.unused fresh;
              })
      ]

  step-Admits :
      (claims : Claims) (out : Result (ℕ × Option Response × ℕ) × Db)
      → claims.tenant_id ≡ tenant
      → admit_contract payload_digest call.clock call.uid claims
          (idem_of call)
          (model_dump call.body)
          (step_call call)
          db
        ≡ out
      → Admits call tenant db (and_then out (λ x db'. (ok (x.0, x.1, some x.2), db')))
  unfolding admit_contract allocate
  step-Admits claims (err e, db') mine eq = refused_at call tenant e db db' (
      transaction-eq-err
        (admit_contract_body payload_digest call.clock call.uid claims (idem_of call)
          (model_dump call.body) (step_call call))
        db e db' eq)
  step-Admits claims (ok (q, some response, i), db') mine eq =
      elim (admit_contract_body-cases payload_digest call.clock call.uid claims (idem_of call)
        (model_dump call.body) (step_call call) (q, some response, i) db db'
        (transaction-eq-ok
          (admit_contract_body payload_digest call.clock call.uid claims (idem_of call)
            (model_dump call.body) (step_call call))
          db (q, some response, i) db' eq)) [
            | inl before ↦ replayed_at call tenant q response (some i) db db' before.result
            | inr new ↦ absurd (ground (arith, new.answer))
          ]
  step-Admits claims (ok (q, none, i), db') mine eq =
      elim (admit_contract_body-cases payload_digest call.clock call.uid claims (idem_of call)
        (model_dump call.body) (step_call call) (q, none, i) db db'
        (transaction-eq-ok
          (admit_contract_body payload_digest call.clock call.uid claims (idem_of call)
            (model_dump call.body) (step_call call))
          db (q, none, i) db' eq)) [
            | inl before ↦ absurd (
                replay_step-ne-none payload_digest call.clock call.uid claims (idem_of call)
                  (model_dump call.body) (step_call call) before.previous before.contract (q, none)
                  before.answer refl)
            | inr new ↦
                adds_at call tenant q
                  (step_request payload_digest call.clock call.uid claims (idem_of call)
                    (model_dump call.body) (step_call call) new.contract)
                  (some i) db db' (ap (λ x. x.0) new.answer)
                  (record {
                    found =
                        found_first tenant call.uid _ db db' refl mine
                          (ap (λ d. d.requests) new.result);
                    state = refl;
                    uncharged = refl;
                    same_bound = refl;
                    same_key = refl;
                    releasable =
                        subst (λ n. CanRelease n call.uid db') mine
                          (IsAllocated-CanRelease payload_digest call.clock call.uid claims
                            (idem_of call) (model_dump call.body) (step_call call) (q, none, i) db
                            db' new);
                  })
          ]

  pub admit_call-Admits :
      (decode : String → Option Claims) (claims : Option Claims)
      → contract_claims decode call tenant key_id application_id ≡ ok claims
      → Admits call tenant db
          (admit_call payload_digest call tenant key_id application_id claims db)
  unfolding admit_call contract_claims
  admit_call-Admits decode none verified = budgets-Admits _ refl
  admit_call-Admits decode (some claims) verified = step-Admits claims _ mine refl
    where
      mine : claims.tenant_id ≡ tenant
      mine = elim (Option-cases (decode call.spend_contract)) [
        | inl rejected ↦ absurd (ground arith)
        | inr (presented, decoded) ↦ ground arith
      ]
