-- ===== src/Accounting/Closing/Completion.antt =====
-- packages/domain/accounting.py, `settle`: the row of a request that is settled.
use quiblyx.Common.{
  ℕ, ◌≡◌, refl, sym, ◌∙◌, ap, inl, inr, false, some, arith, if◌then◌else◌, scalar, scalar_hit,
  update, pos, ok,
}
use quiblyx.Model.{Db, Request}
use quiblyx.Accounting.Settlement.{
  Usage, finished, finish_request, is_final, is_request, request_at,
}
use quiblyx.Accounting.Settlement.Rounds.{within-eq-ok}
use quiblyx.Accounting.Settlement.Life.{is_request-eq, request_at-update}
use quiblyx.Accounting.Closing.{settle_body}
use quiblyx.Accounting.Closing.Cases.{
  settle_body-keeps, settle_contract_request-cases, settle_budgets-cases,
}
use quiblyx.Accounting.Frames.{settle_all-frame}

-- The row of a request that a settlement has finished.
pub record IsFinished (t q : ℕ) (r : Request) (u : Usage) (db : Db) : Type 0 where
  pub cost : ℕ
  pub reported : u.cost ≡ pos cost
  pub found : request_at db t q ≡ some (finished cost u r)

updated-IsFinished :
    (t q : ℕ) (r : Request) (u : Usage) (cost : ℕ) (db db' : Db)
    → u.cost ≡ pos cost
    → request_at db t q ≡ some r
    → db'.requests ≡ update (is_request t q) (finished cost u) db.requests
    → IsFinished t q r u db'
updated-IsFinished t q r u cost db db' reported e rows = record {
  cost = cost;
  reported = reported;
  found =
      ap (scalar (is_request t q)) rows
      ∙ request_at-update t q t q (finished cost u) db.requests (λ x. refl) (λ x. refl) r e
      ∙ ap (λ b. some (if b then finished cost u r else r)) (scalar_hit _ db.requests r e);
}

-- A settlement that returns has finished its request, unless the request was final before.
pub settle_body-IsFinished :
    (t q : ℕ) (r : Request) (u : Usage) (db db' : Db)
    → request_at db t q ≡ some r
    → is_final r.state ≡ false
    → settle_body t q u db ≡ ok (tt, db')
    → IsFinished t q r u db'
unfolding finish_request
settle_body-IsFinished t q r u db db' e pending done =
    settle_body-keeps (IsFinished t q r u) t q u db db' done
      (λ req found step.
        let same : req ≡ r = ground arith in
        let mine = is_request-eq t q req (scalar_hit _ db.requests req found) in
        elim (settle_contract_request-cases req u db db' step) [
          | inl (final, _) ↦ absurd (ground arith)
          | inr s ↦
              updated-IsFinished t q r u s.cost db db' (within-eq-ok _ _ _ _ s.in_bound).0 e
                (rw (sym mine.0, sym mine.1) (ap (λ d. d.requests) s.result))
        ])
      (λ req found rounds.
        let same : req ≡ r = ground arith in
        elim (settle_budgets-cases t q req u db db' rounds) [
          | inl (final, _) ↦ absurd (ground arith)
          | inr s ↦ updated-IsFinished t q r u s.cost db db' (within-eq-ok _ _ _ _ s.in_bound).0 e (
              ap (λ d. d.requests) s.result
              ∙ ap (λ d. update (is_request t q) (finished s.cost u) d.requests)
                  (settle_all-frame t q s.cost req.bound u _ db s.charged s.rounds))
        ])
