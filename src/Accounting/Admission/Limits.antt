-- ===== src/Accounting/Admission/Limits.antt =====
-- What `admit` and `create_spend_contract` (packages/domain/accounting.py) do to the budgets.
use quiblyx.Common.{
  ℕ, ◌+◌, ◌≤◌, ◌≡◌, refl, ◌∙◌, ap, inl, inr, Bool, true, false, Bool-cases, Option, none, some,
  Option-cases, List, [], ◌∷◌, map, arith, String, ◌==◌, select, update, All, All-update, Distinct,
  pos, ok, Result-cases,
}
use quiblyx.Model.{Db, Budget, Application}
use quiblyx.Chat.{Payload}
use quiblyx.Hierarchy.{ancestry}
use quiblyx.Accounting.Clock.{Clock, month, today}
use quiblyx.Accounting.Budgets.{
  Bounds, bound_of, active_budgets, check_limits, needs_renewal, in_scope,
}
use quiblyx.Accounting.Budgets.Thresholds.{threshold_events-frame}
use quiblyx.Accounting.Budgets.Active.{
  is_active, reserve_on, reserve_rows, reserve_rows-eq-update, Fits, check_limits-Fits,
}
use quiblyx.Accounting.Admission.{
  application_at, reserve_budget, reserve_all, admissible, request_bounds, admit,
}
use quiblyx.Accounting.Admission.Cases.{admit-cases, IsFresh-of_none}

pub reserve_budget-budgets :
    (t q : ℕ) (bs : Bounds) (b : Budget) (db : Db)
    → (reserve_budget t q bs b db).budgets
      ≡ update
          (λ r. r.id == b.id)
          (λ r. record r { reserved = r.reserved + bound_of bs b.unit })
          db.budgets
unfolding reserve_budget
reserve_budget-budgets t q bs b db = rw threshold_events-frame

pub reserve_all-budgets :
    (t q : ℕ) (bs : Bounds) (active : List Budget) (db : Db)
    → (reserve_all t q bs active db).budgets ≡ reserve_rows bs active db.budgets
unfolding reserve_all reserve_rows
reserve_all-budgets t q bs [] db = refl
reserve_all-budgets t q bs (b ∷ active) db =
    reserve_all-budgets t q bs active (reserve_budget t q bs b db)
    ∙ ap (reserve_rows bs active) (reserve_budget-budgets t q bs b db)

-- The application may run, its groups are the path, and its active budgets are the result.
pub record IsAdmissible (clock : Clock) (tenant application_id : ℕ) (bs : Bounds) (db : Db)
    (budgets : List Budget) : Type 0 where
  pub application : Application
  pub path : List ℕ
  pub found : application_at db tenant application_id ≡ some application
  pub running : application.paused ≡ false
  pub climbed : ancestry db tenant application.group_id true ≡ ok path
  pub renewed :
      needs_renewal budgets (select (in_scope tenant (tenant ∷ application_id ∷ path)) db.budgets)
      ≡ false
  pub within : check_limits bs "budget_exhausted" budgets ≡ ok tt
  pub active :
      budgets
      ≡ active_budgets db tenant (tenant ∷ application_id ∷ path) (month clock) (today clock)

pub admissible-IsAdmissible :
    (clock : Clock) (t a : ℕ) (bs : Bounds) (db : Db) (budgets : List Budget)
    → admissible clock t a bs db ≡ ok budgets
    → IsAdmissible clock t a bs db budgets
unfolding admissible
admissible-IsAdmissible clock t a bs db budgets e = elim (Option-cases (application_at db t a)) [
  | inl missing ↦ absurd (ground arith)
  | inr (app, found) ↦ elim (Result-cases (ancestry db t app.group_id true)) [
    | inl (_, refused) ↦ absurd (ground arith)
    | inr (path, climbed) ↦ record {
      application = app;
      path = path;
      found = found;
      running = ground arith;
      climbed = climbed;
      renewed = ground arith;
      within = ground arith;
      active = ground arith;
    }
  ]
]

-- The exact effect of a reservation on the budgets: those of the application's scopes for the
-- month or the day are raised by their bound and stay within their limits, and no other changes.
pub record IsReserved (clock : Clock) (tenant application_id : ℕ) (bs : Bounds) (db db' : Db)
    : Type 0 where
  pub application : Application
  pub path : List ℕ
  pub found : application_at db tenant application_id ≡ some application
  pub running : application.paused ≡ false
  pub climbed : ancestry db tenant application.group_id true ≡ ok path
  pub raised :
      db'.budgets
      ≡ update
          (is_active tenant (tenant ∷ application_id ∷ path) (month clock) (today clock))
          (reserve_on bs)
          db.budgets
  pub within :
      All
        (λ b.
          is_active tenant (tenant ∷ application_id ∷ path) (month clock) (today clock) b ≡ true
          → b.spent + b.reserved ≤ b.hard_limit)
        db'.budgets

-- The limits hold after the update if they had room before it.
update-within :
    (bs : Bounds) (p : Budget → Bool) (rows : List Budget)
    → ((b : Budget) → p (reserve_on bs b) ≡ p b)
    → All (λ b. p b ≡ true → Fits bs b) rows
    → All (λ b. p b ≡ true → b.spent + b.reserved ≤ b.hard_limit) (update p (reserve_on bs) rows)
update-within bs p rows stable = All-update _ _ p (reserve_on bs) rows λ b fits.
    elim (Bool-cases (p b)) [
      | inl chosen ↦ rw chosen (λ _. omega (arith, fits chosen))
      | inr passed ↦ rw passed (λ chosen. absurd (cc))
    ]

-- The loop that checks the limits and the loop that reserves, together.
pub reserve-IsReserved :
    (clock : Clock) (t a : ℕ) (bs : Bounds) (detail : String) (app : Application) (path : List ℕ)
    (db db' : Db)
    → Distinct (map (λ b. b.id) db.budgets)
    → application_at db t a ≡ some app
    → app.paused ≡ false
    → ancestry db t app.group_id true ≡ ok path
    → check_limits bs detail (active_budgets db t (t ∷ a ∷ path) (month clock) (today clock))
      ≡ ok tt
    → db'.budgets
      ≡ reserve_rows bs (active_budgets db t (t ∷ a ∷ path) (month clock) (today clock)) db.budgets
    → IsReserved clock t a bs db db'
unfolding active_budgets
reserve-IsReserved clock t a bs detail app path db db' d found running climbed checked result =
    let p = is_active t (t ∷ a ∷ path) (month clock) (today clock) in
    let raised = result ∙ reserve_rows-eq-update bs p db.budgets d in
    record {
      application = app;
      path = path;
      found = found;
      running = running;
      climbed = climbed;
      raised = raised;
      within = rw raised (
          update-within bs p db.budgets (λ b. refl)
            (check_limits-Fits bs detail p db.budgets checked));
    }

-- A successful new admission reserves the bounds on exactly the budgets of the application's
-- scopes (tenant, application and every group above it) for the month or the day, each of which
-- is then within its limit; no other budget changes, and the answer is the new request. The
-- budgets must have distinct identifiers.
pub admit-IsReserved :
    (digest : Payload → String) (clock : Clock) (uid t k a : ℕ) (idem : String) (p : Payload)
    (bound : ℕ) (token_bound : Option ℕ) (q : ℕ) (db db' : Db)
    → Distinct (map (λ b. b.id) db.budgets)
    → admit digest clock uid t k a idem p (pos bound) token_bound db ≡ (ok (q, none), db')
    → (q ≡ uid) × IsReserved clock t a (request_bounds bound token_bound) db db'
admit-IsReserved digest clock uid t k a idem p bound token_bound q db db' d e =
    let fresh =
      IsFresh-of_none digest clock uid t k a idem p bound token_bound q db db'
        (admit-cases digest clock uid t k a idem p bound token_bound (q, none) db db' e) in
    let may =
      admissible-IsAdmissible clock t a (request_bounds bound token_bound) db fresh.budgets
        fresh.allowed in
    (
      ap (λ x. x.0) fresh.answer,
      reserve-IsReserved clock t a (request_bounds bound token_bound) "budget_exhausted"
          may.application may.path db db' d may.found may.running may.climbed
          (rw (← may.active) may.within)
          (ap (λ x. x.budgets) fresh.result
            ∙ reserve_all-budgets t uid (request_bounds bound token_bound) fresh.budgets _
            ∙ ap (λ bs. reserve_rows (request_bounds bound token_bound) bs db.budgets) may.active),
    )
