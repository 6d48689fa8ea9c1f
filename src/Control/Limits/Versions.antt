-- ===== src/Control/Limits/Versions.antt =====
-- `budget` of services/control_api/main.py: the version of a budget keeps two callers from
-- overwriting each other.
use quiblyx.Common.{
  ℕ, ◌≡◌, ◌+◌, refl, sym, ◌∙◌, ap, subst, ◌⊎◌, inl, inr, true, none, some, Option-cases, ◌∷◌, arith,
  String, ◌==◌, ==_refl, scalar, scalar-update, update, ok, err, http, Result-cases,
}
use quiblyx.Model.{Db, Budget, BudgetUnit, unit_eq, Period, period_eq, monthly, daily, RoleName}
use quiblyx.Security.{authorize}
use quiblyx.Accounting.Clock.{Clock}
use quiblyx.Control.Common.{audit, authorized-eq-ok, authorized-eq-err}
use quiblyx.Control.Limits.{
  BudgetInput, budget, budget_body, budget_of, check_target, is_budget_of, new_budget, period_of,
  relimited, write_budget,
}

period_eq_refl : (p : Period) → period_eq p p ≡ true
period_eq_refl (monthly a) = ground arith
period_eq_refl (daily a) = ground arith

unit_eq_refl : (u : BudgetUnit) → unit_eq u u ≡ true
unit_eq_refl BudgetUnit.money = refl
unit_eq_refl BudgetUnit.tokens = refl
unit_eq_refl BudgetUnit.requests = refl

-- The row that a successful call leaves for its scope, period and unit.
pub record IsWritten (t : ℕ) (p : Period) (input : BudgetInput) (row : Budget) (db db' : Db)
    : Type 0 where
  pub found : budget_of db' t input.scope_id p input.unit ≡ some row
  pub limit : row.hard_limit ≡ input.hard_limit
  pub next : row.version ≡ input.version + 1
  pub committed :
      ((b : Budget) × (budget_of db t input.scope_id p input.unit ≡ some b)
        × (row.id ≡ b.id)
        × (row.spent ≡ b.spent)
        × (row.reserved ≡ b.reserved))
      ⊎ ((budget_of db t input.scope_id p input.unit ≡ none) × (row.spent ≡ 0) × (row.reserved ≡ 0))
  pub same_target : (scope : ℕ) → check_target db' t scope ≡ check_target db t scope

module _ (uid t : ℕ) (p : Period) (input : BudgetInput) (row : Budget) (db db' : Db)
    (e : write_budget uid t p input db ≡ ok (row, db')) where
  write_budget-added :
      budget_of db t input.scope_id p input.unit ≡ none
      → (input.version ≡ 0)
        × (row ≡ new_budget uid t p input)
        × (db' ≡ record db { budgets = new_budget uid t p input ∷ db.budgets })
  unfolding write_budget
  write_budget-added missing = ground arith

  write_budget-changed :
      (b : Budget)
      → budget_of db t input.scope_id p input.unit ≡ some b
      → (input.version ≡ b.version)
        × (row ≡ relimited input.hard_limit b)
        × (db' ≡ record db {
          budgets = update (λ x. x.id == b.id) (relimited input.hard_limit) db.budgets;
        })
  unfolding write_budget
  write_budget-changed b seen = ground arith

  write_budget-IsWritten : IsWritten t p input row db db'
  unfolding check_target
  write_budget-IsWritten = elim (Option-cases (budget_of db t input.scope_id p input.unit)) [
    | inl missing ↦
        let (version, same, made) = write_budget-added missing in
        record {
          found =
              ap (λ d. budget_of d t input.scope_id p input.unit) made
              ∙ found_new
              ∙ ap some (sym same);
          limit = ap (λ b. b.hard_limit) same;
          next = ground (arith, ap (λ b. b.version) same);
          committed = inr (missing, ap (λ b. b.spent) same, ap (λ b. b.reserved) same);
          same_target = λ scope. ap (λ d. check_target d t scope) made;
        }
    | inr (b, seen) ↦
        let (version, same, made) = write_budget-changed b seen in
        record {
          found =
              ap (λ d. budget_of d t input.scope_id p input.unit) made
              ∙ found_changed b seen
              ∙ ap some (sym same);
          limit = ap (λ x. x.hard_limit) same;
          next = ground (arith, ap (λ x. x.version) same);
          committed =
              inl (b, seen, ap (λ x. x.id) same, ap (λ x. x.spent) same, ap (λ x. x.reserved) same);
          same_target = λ scope. ap (λ d. check_target d t scope) made;
        }
  ]
    where
      found_new :
          scalar
            (is_budget_of t input.scope_id p input.unit)
            (new_budget uid t p input ∷ db.budgets)
          ≡ some (new_budget uid t p input)
      found_new =
          rw (==_refl t, ==_refl input.scope_id, period_eq_refl p, unit_eq_refl input.unit) refl

      found_changed :
          (b : Budget)
          → budget_of db t input.scope_id p input.unit ≡ some b
          → scalar
              (is_budget_of t input.scope_id p input.unit)
              (update (λ x. x.id == b.id) (relimited input.hard_limit) db.budgets)
            ≡ some (relimited input.hard_limit b)
      found_changed b seen =
          scalar-update (is_budget_of t input.scope_id p input.unit) (λ x. x.id == b.id)
            (relimited input.hard_limit) db.budgets (λ x. refl)
          ∙ rw (seen, ==_refl b.id) refl

budget_body-IsWritten :
    (clock : Clock) (uid t : ℕ) (input : BudgetInput) (subject : String) (row : Budget)
    (db db' : Db)
    → budget_body clock uid t input subject db ≡ ok (row, db')
    → (check_target db t input.scope_id ≡ ok tt)
      × IsWritten t (period_of clock input.cadence) input row db db'
unfolding budget_body check_target
budget_body-IsWritten clock uid t input subject row db db' e =
    elim (Result-cases (check_target db t input.scope_id)) [
      | inl (_, failed) ↦ absurd (ground arith)
      | inr (tt, passed) ↦
          elim (Result-cases (write_budget uid t (period_of clock input.cadence) input db)) [
            | inl (_, failed) ↦ absurd (ground arith)
            | inr (w, wrote) ↦
                let same : w.0 ≡ row = ground arith in
                let made : db' ≡ audit t subject "budget.updated" w.0.id w.1 = ground arith in
                let k =
                  write_budget-IsWritten uid t (period_of clock input.cadence) input w.0 db w.1
                    wrote in
                (
                  passed,
                  subst (λ r. IsWritten t (period_of clock input.cadence) input r db db') same
                      (subst (IsWritten t (period_of clock input.cadence) input w.0 db) (sym made)
                        (record {
                          found = k.found;
                          limit = k.limit;
                          next = k.next;
                          committed = k.committed;
                          same_target = k.same_target;
                        })),
                )
          ]
    ]

write_budget-conflict :
    (uid t limit : ℕ) (p : Period) (input : BudgetInput) (row : Budget) (db db' : Db)
    → IsWritten t p input row db db'
    → write_budget uid t p (record input { hard_limit = limit }) db'
      ≡ err (http 409 "version_conflict")
unfolding write_budget
write_budget-conflict uid t limit p input row db db' k =
    let next = k.next in let found = k.found in ground arith

budget_body-conflict :
    (later : Clock) (uid t limit : ℕ) (p : Period) (input : BudgetInput) (subject : String)
    (row : Budget) (db db' : Db)
    → period_of later input.cadence ≡ p
    → check_target db t input.scope_id ≡ ok tt
    → IsWritten t p input row db db'
    → budget_body later uid t (record input { hard_limit = limit }) subject db'
      ≡ err (http 409 "version_conflict")
unfolding budget_body
budget_body-conflict later uid t limit p input subject row db db' same passed k =
    rw
      (
        k.same_target input.scope_id ∙ passed,
        same,
        write_budget-conflict uid t limit p input row db db' k,
      )
      refl

-- A budget that a call has written has the call's limit and the next version; what was spent and
-- reserved on it stays. A call made in the state that it leaves, for the same budget, with the
-- version that the first one carried, changes nothing and fails with `version_conflict`: whatever
-- limit it sets, and whoever makes it at whatever time of the same period, if that caller may
-- write.
pub budget-conflict :
    (clock later : Clock) (uid uid' t limit : ℕ) (input : BudgetInput) (subject subject' : String)
    (row : Budget) (role : RoleName) (db db' : Db)
    → budget clock uid t input subject db ≡ (ok row, db')
    → authorize db' t subject' true none none ≡ ok role
    → period_of later input.cadence ≡ period_of clock input.cadence
    → IsWritten t (period_of clock input.cadence) input row db db'
      × (budget later uid' t (record input { hard_limit = limit }) subject' db'
          ≡ (err (http 409 "version_conflict"), db'))
unfolding budget
budget-conflict clock later uid uid' t limit input subject subject' row role db db' e permitted
      same =
    let (first, allowed, done) =
      authorized-eq-ok (authorize db t subject true none none)
        (λ _. budget_body clock uid t input subject) db row db' e in
    let (passed, written) = budget_body-IsWritten clock uid t input subject row db db' done in
    (
      written,
      authorized-eq-err (authorize db' t subject' true none none)
          (λ _. budget_body later uid' t (record input { hard_limit = limit }) subject') db' role
          (http 409 "version_conflict") permitted
          (budget_body-conflict later uid' t limit (period_of clock input.cadence) input subject'
            row db db' same passed written),
    )
