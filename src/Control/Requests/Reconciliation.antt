-- ===== src/Control/Requests/Reconciliation.antt =====
-- services/control_api/main.py, `reconcile`, with `settle` of packages/domain/accounting.py.
use quiblyx.Common.{
  ℕ, ◌≡◌, refl, sym, ◌∙◌, ap, subst, inl, inr, ◌⊎◌, true, false, Bool-cases, none, some,
  Option-cases, arith, List, [], ◌∷◌, scalar, ◌==◌, ◌&&◌, String, Result, ok, err,
}
use quiblyx.Model.{Db, Request, RequestState, RoleName, and_then, transaction-eq-ok}
use quiblyx.Security.{authorize}
use quiblyx.Accounting.Settlement.{finished, is_final, is_request, request_at}
use quiblyx.Accounting.Closing.{settle, settle_body}
use quiblyx.Accounting.Closing.Cases.{
  settle_body-keeps, settle_budgets-cases, settle_contract_request-cases,
}
use quiblyx.Accounting.Closing.Completion.{settle_body-IsFinished}
use quiblyx.Control.Common.{authorized, authorized-eq-ok}
use quiblyx.Control.Requests.{conservative, is_governor, is_uncertain, reconcile, reconcile_body}

-- The request is completed at the cost of its bound, and the actor may do that.
pub record IsReconciled (t q : ℕ) (subject : String) (bound : ℕ) (db db' : Db) : Type 0 where
  pub role : RoleName
  pub permitted : authorize db t subject true none none ≡ ok role
  pub governor : is_governor role ≡ true
  pub before : Request
  pub found_before : request_at db t q ≡ some before
  pub charged : before.bound ≡ bound
  pub request : Request
  pub found : request_at db' t q ≡ some request
  pub completed : request.state ≡ RequestState.completed
  pub cost : request.cost ≡ some bound
  -- A second reconciliation leaves the row as it is.
  pub settled_before : is_uncertain before.state ≡ false → request ≡ before

-- A settlement changes no request that is final.
settle_body-final :
    (t q : ℕ) (r : Request) (bound : ℕ) (db db' : Db)
    → request_at db t q ≡ some r
    → is_final r.state ≡ true
    → settle_body t q (conservative bound) db ≡ ok (tt, db')
    → db' ≡ db
settle_body-final t q r bound db db' e final done =
    settle_body-keeps (λ d. d ≡ db) t q (conservative bound) db db' done
      (λ req found step. elim (settle_contract_request-cases req (conservative bound) db db' step) [
        | inl (_, same) ↦ same
        | inr s ↦ absurd (ground (arith, s.pending))
      ])
      (λ req found rounds. elim (settle_budgets-cases t q req (conservative bound) db db' rounds) [
        | inl (_, same) ↦ same
        | inr s ↦ absurd (ground (arith, s.pending))
      ])

-- What the first transaction found and left.
record IsReconcilable (t q : ℕ) (role : RoleName) (bound : ℕ) (db db' : Db) : Type 0 where
  governor : is_governor role ≡ true
  before : Request
  found : request_at db t q ≡ some before
  later : request_at db' t q ≡ some before
  charged : before.bound ≡ bound
  open_or_conservative :
      (is_uncertain before.state ≡ true)
      ⊎ ((before.state ≡ RequestState.completed) × (before.cost ≡ some bound))

-- `find` and the query of `settle` test the same two columns.
scalar-swap :
    (t q : ℕ) (rows : List Request)
    → scalar (λ r. (r.tenant_id == t) && (r.id == q)) rows ≡ scalar (is_request t q) rows
scalar-swap t q [] = refl
scalar-swap t q (x ∷ xs) = ground (arith, scalar-swap t q xs)

reconcile_body-IsReconcilable :
    (t q : ℕ) (subject : String) (role : RoleName) (bound : ℕ) (db db' : Db)
    → reconcile_body t q subject role db ≡ ok (bound, db')
    → IsReconcilable t q role bound db db'
unfolding reconcile_body
reconcile_body-IsReconcilable t q subject role bound db db' e =
    elim (Option-cases (scalar (λ (r : Request). (r.tenant_id == t) && (r.id == q)) db.requests)) [
      | inl missing ↦ absurd (ground arith)
      | inr (r, row) ↦
          let found : request_at db t q ≡ some r = sym (scalar-swap t q db.requests) ∙ row in
          let rows : db'.requests ≡ db.requests = ground arith in
          record {
            governor = ground arith;
            before = r;
            found = found;
            later = ap (scalar (is_request t q)) rows ∙ found;
            charged = ground arith;
            open_or_conservative = elim (Bool-cases (is_uncertain r.state)) [
              | inl unsettled ↦ inl unsettled
              | inr shut ↦ inr (ground arith, ground arith)
            ];
          }
    ]

-- The second transaction, of a request that the first one let pass.
settled-IsReconciled :
    (t q : ℕ) (subject : String) (role : RoleName) (bound : ℕ) (db mid db' : Db)
    → authorize db t subject true none none ≡ ok role
    → IsReconcilable t q role bound db mid
    → settle_body t q (conservative bound) mid ≡ ok (tt, db')
    → IsReconciled t q subject bound db db'
settled-IsReconciled t q subject role bound db mid db' permitted h done =
    elim h.open_or_conservative [
      | inl unsettled ↦
          let made =
            settle_body-IsFinished t q h.before (conservative bound) mid db' h.later (ground arith)
              done in
          record {
            role = role;
            permitted = permitted;
            governor = h.governor;
            before = h.before;
            found_before = h.found;
            charged = h.charged;
            request = finished made.cost (conservative bound) h.before;
            found = made.found;
            completed = refl;
            cost = ground (arith, made.reported);
            settled_before = λ shut. absurd (cc (unsettled, shut));
          }
      | inr (state, cost) ↦
          let same = settle_body-final t q h.before bound mid db' h.later (ground arith) done in
          record {
            role = role;
            permitted = permitted;
            governor = h.governor;
            before = h.before;
            found_before = h.found;
            charged = h.charged;
            request = h.before;
            found = ap (λ d. request_at d t q) same ∙ h.later;
            completed = state;
            cost = cost;
            settled_before = λ _. refl;
          }
    ]

module _ (t q : ℕ) (subject : String) (db db' : Db) (bound : ℕ) where
  charged-IsReconciled :
      (role : RoleName) (b : ℕ) (mid : Db) (out : Result (Unit {0}) × Db)
      → authorize db t subject true none none ≡ ok role
      → IsReconcilable t q role b db mid
      → settle t q (conservative b) mid ≡ out
      → ◌≡◌ {A = Result ℕ × Db} (and_then out (λ _ d. (ok b, d))) (ok bound, db')
      → IsReconciled t q subject bound db db'
  unfolding settle
  charged-IsReconciled role b mid (err x, d) permitted h eq e = absurd (ground arith)
  charged-IsReconciled role b mid (ok _, d) permitted h eq e =
      let same : b ≡ bound = ground arith in
      let state : d ≡ db' = ap (λ out. out.1) e in
      subst (λ n. IsReconciled t q subject n db db') same
        (subst (IsReconciled t q subject b db) state (
          settled-IsReconciled t q subject role b db mid d permitted h
            (transaction-eq-ok (settle_body t q (conservative b)) mid tt d eq)))

  permitted-IsReconciled :
      (out : Result ℕ × Db)
      → authorized (authorize db t subject true none none) (reconcile_body t q subject) db ≡ out
      → ◌≡◌ {A = Result ℕ × Db}
          (and_then out (λ b mid. and_then (settle t q (conservative b) mid) (λ _ d. (ok b, d))))
          (ok bound, db')
      → IsReconciled t q subject bound db db'
  permitted-IsReconciled (err x, d) eq e = absurd (ground arith)
  permitted-IsReconciled (ok b, mid) eq e =
      let (role, permitted, done) =
        authorized-eq-ok (authorize db t subject true none none) (reconcile_body t q subject) db b
          mid eq in
      charged-IsReconciled role b mid _ permitted
        (reconcile_body-IsReconcilable t q subject role b db mid done) refl e

-- A reconciliation that returns was made by an owner or an administrator, and the request, which
-- was uncertain or completed, is now completed at the cost of its whole bound, which is the amount
-- returned; a request that was completed before keeps its row.
pub reconcile-IsReconciled :
    (t q : ℕ) (subject : String) (bound : ℕ) (db db' : Db)
    → reconcile t q subject db ≡ (ok bound, db')
    → IsReconciled t q subject bound db db'
unfolding reconcile
reconcile-IsReconciled t q subject bound db db' e =
    permitted-IsReconciled t q subject db db' bound _ refl e
