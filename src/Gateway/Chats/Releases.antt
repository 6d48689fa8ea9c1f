-- ===== src/Gateway/Chats/Releases.antt =====
-- services/gateway/main.py: the settlement of a request that was admitted and not sent
-- (packages/domain/accounting.py, `settle` with `pre_dispatch`) is not refused.
pub mod Steps
use quiblyx.Common.{
  ℕ, ◌+◌, ◌≤◌, ◌≡◌, refl, sym, ◌∙◌, ap, subst, inl, inr, Bool, true, false, Bool-cases, none, some,
  List, [], ◌∷◌, Option, arith, contains, map, ◌==◌, ==_iff, ==_refl, ◌&&◌, &&_true, ◌+ℤ◌, pos, ℤ,
  scalar, scalar-update, scalar_hit, select, update, if◌then◌else◌, ◌||◌, All, All-map, Distinct,
  String, ok, Result, Result-cases,
}
use quiblyx.Model.{
  Db, Budget, ContractAllocation, Request, RequestState, Reservation, Response, SpendContract,
  usage_settled,
}
use quiblyx.Chat.{Payload}
use quiblyx.Accounting.Clock.{Clock, month, today}
use quiblyx.Accounting.Budgets.{Bounds, active_budgets, is_root, root_budget}
use quiblyx.Accounting.Budgets.Active.{is_active, reserve_on, reserve_rows, reserve_rows-eq-update}
use quiblyx.Accounting.Budgets.Order.{
  active_budgets-Distinct, active_budgets-found, active_budgets-root,
}
use quiblyx.Accounting.Admission.{new_request, request_bounds, reserve_all}
use quiblyx.Accounting.Admission.Cases.{IsFresh}
use quiblyx.Accounting.Admission.Limits.{admissible-IsAdmissible, reserve_all-budgets}
use quiblyx.Accounting.Frames.{reserve_all-frame}
use quiblyx.Accounting.Release.Admitted.{
  AreBacked, IsAhead, reserve_all-AreBacked, reserve_all-contains,
}
use quiblyx.Accounting.Closing.{
  allocation_at, contract_of, settle_body, settle_contract_request, step_tokens,
}
use quiblyx.Accounting.Release.{IsBacked, settle_all-releases}
use quiblyx.Accounting.Settlement.{
  finish_request, is_request, request_at, reservations_of, settle_all, settle_budgets, within,
}
use quiblyx.Gateway.Chats.{not_sent}

-- A settlement of the request that was not sent succeeds.
abbrev pub CanRelease : ℕ → ℕ → Db → Type 0
CanRelease t q db = (db' : Db) × (settle_body t q not_sent db ≡ ok (tt, db'))

pub settle_budgets-releases :
    (t q : ℕ) (req : Request) (root : Budget) (db : Db)
    → request_at db t q ≡ some req
    → req.state ≡ RequestState.reserved
    → req.contract_id ≡ none
    → scalar
        (λ b.
          contains b.id (map (λ r. r.budget_id) (reservations_of db t q)) && is_root t req.period b)
        db.budgets
      ≡ some root
    → Distinct (map (λ r. r.budget_id) (reservations_of db t q))
    → All (IsBacked t db) (reservations_of db t q)
    → CanRelease t q db
unfolding settle_body settle_budgets within
settle_budgets-releases t q req root db found waiting free rooted distinct backed =
    let (db', done) =
      settle_all-releases t q req.bound not_sent refl (reservations_of db t q) db distinct backed in
    (finish_request t q 0 not_sent (usage_settled q) db', ground arith)

pub settle_contract_request-releases :
    (t q : ℕ) (req : Request) (a : ContractAllocation) (c : SpendContract) (db : Db)
    → request_at db t q ≡ some req
    → req.state ≡ RequestState.reserved
    → contract_of db req ≡ some c
    → allocation_at db req.tenant_id req.id ≡ some a
    → a.cost_bound ≤ c.outstanding_cost
    → a.token_bound ≤ c.outstanding_tokens
    → CanRelease t q db
unfolding settle_body settle_contract_request within step_tokens ◌+ℤ◌
settle_contract_request-releases t q req a c db found waiting bound allocated cost tokens =
    elim (Result-cases (settle_body t q not_sent db)) [
      | inr (done, e) ↦ (done.1, e)
      | inl (x, refused) ↦ absurd (ground arith)
    ]

-- A new identifier has no reservation.
none_reserved :
    (t q : ℕ) (rows : List Reservation)
    → contains q (map (λ r. r.request_id) rows) ≡ false
    → select (λ r. (r.tenant_id == t) && (r.request_id == q)) rows ≡ []
none_reserved t q [] h = refl
none_reserved t q (r ∷ rows) h = ground (arith, none_reserved t q rows)

-- A row that two conditions pick first is picked by both at once.
scalar-both :
    (p k : Budget → Bool) (rows : List Budget) (b : Budget)
    → scalar p rows ≡ some b
    → k b ≡ true
    → scalar (λ x. k x && p x) rows ≡ some b
scalar-both p k [] b e h = cc
scalar-both p k (x ∷ rows) b e h = ground (arith, scalar-both p k rows b)

-- The row that was added last is the one that is found.
pub found_first :
    (t q : ℕ) (r : Request) (db db' : Db)
    → r.id ≡ q
    → r.tenant_id ≡ t
    → db'.requests ≡ r ∷ db.requests
    → request_at db' t q ≡ some r
found_first t q r db db' same_id same_tenant rows =
    ap (scalar (is_request t q)) rows ∙ ground (arith, same_id, same_tenant)

module _ (t uid : ℕ) (bs : Bounds) (new : Request) (scopes : List ℕ) (clock : Clock) (db : Db)
    (distinct : Distinct (map (λ b. b.id) db.budgets))
    (unused : contains uid (map (λ r. r.request_id) db.reservations) ≡ false) where
  abbrev active : List Budget
  active = active_budgets db t (t ∷ scopes) (month clock) (today clock)

  -- The new request is in the table, and nothing is reserved yet.
  abbrev added : Db
  added = record db { requests = new ∷ db.requests }

  abbrev reserved : Db
  reserved = reserve_all t uid bs active added

  reserved-AreBacked : AreBacked t uid bs reserved
  reserved-AreBacked =
      let nothing = none_reserved t uid db.reservations unused in
      let start : AreBacked t uid bs added = record {
        distinct = subst (λ rs. Distinct (map (λ r. r.budget_id) rs)) (sym nothing) tt;
        backed = subst (All (IsBacked t added)) (sym nothing) tt;
      } in
      let ahead =
        All-map _ (IsAhead t uid bs added) active
          (λ b found. record {
            unmet = ap (λ rs. contains b.id (map (λ r. r.budget_id) rs)) nothing;
            row = b;
            found = found;
          })
          (active_budgets-found db t (t ∷ scopes) (month clock) (today clock) distinct) in
      reserve_all-AreBacked t uid bs active added
        (active_budgets-Distinct db t (t ∷ scopes) (month clock) (today clock) distinct) ahead start

  -- The root budget is still found, among the budgets of the reservations.
  reserved-root :
      (root : Budget)
      → root_budget db t (month clock) ≡ some root
      → (row : Budget) × (scalar
            (λ b.
              contains b.id (map (λ r. r.budget_id) (reservations_of reserved t uid))
              && is_root t (month clock) b)
            reserved.budgets
          ≡ some row)
  unfolding active_budgets
  reserved-root root rooted =
      let p = is_active t (t ∷ scopes) (month clock) (today clock) in
      let k : Budget → Bool =
        λ b. contains b.id (map (λ r. r.budget_id) (reservations_of reserved t uid)) in
      let mine =
        reserve_all-contains t uid bs active root.id added (
          ground
            (arith, active_budgets-root db t scopes (month clock) (today clock) root rooted)) in
      let both = scalar-both (is_root t (month clock)) k db.budgets root rooted mine in
      (
        if p root then reserve_on bs root else root,
        ap (scalar (λ b. k b && is_root t (month clock) b)) (
              reserve_all-budgets t uid bs active added
              ∙ reserve_rows-eq-update bs p db.budgets distinct)
            ∙ scalar-update (λ b. k b && is_root t (month clock) b) p (reserve_on bs) db.budgets
                (λ b. refl)
            ∙ rw both refl,
      )

  reserved-CanRelease :
      (root : Budget)
      → root_budget db t (month clock) ≡ some root
      → new.id ≡ uid
      → new.tenant_id ≡ t
      → new.state ≡ RequestState.reserved
      → new.contract_id ≡ none
      → new.period ≡ month clock
      → CanRelease t uid reserved
  reserved-CanRelease root rooted same_id same_tenant waiting free period =
      let backed = reserved-AreBacked in
      let (row, kept) = reserved-root root rooted in
      settle_budgets-releases t uid new row reserved
        (found_first t uid new db reserved same_id same_tenant
          (ap (λ d. d.requests) (reserve_all-frame t uid bs active added)))
        waiting free
        (subst
          (λ m.
            scalar
              (λ b.
                contains b.id (map (λ r. r.budget_id) (reservations_of reserved t uid))
                && is_root t m b)
              reserved.budgets
            ≡ some row)
          (sym period) kept)
        backed.distinct backed.backed

-- A request that `admit` has just added can be released.
pub IsFresh-CanRelease :
    (digest : Payload → String) (clock : Clock) (uid t k a : ℕ) (idem : String) (p : Payload)
    (bound : ℕ) (token_bound : Option ℕ) (x : ℕ × Option Response) (db db' : Db)
    → Distinct (map (λ b. b.id) db.budgets)
    → contains uid (map (λ r. r.request_id) db.reservations) ≡ false
    → IsFresh digest clock uid t k a idem p bound token_bound x db db'
    → CanRelease t uid db'
IsFresh-CanRelease digest clock uid t k a idem p bound token_bound x db db' distinct unused fresh =
    let bs = request_bounds bound token_bound in
    let may = admissible-IsAdmissible clock t a bs db fresh.budgets fresh.allowed in
    let new = new_request digest clock uid t k a idem p bound in
    subst (CanRelease t uid)
      (sym (
        fresh.result
        ∙ ap (λ active. reserve_all t uid bs active (record db { requests = new ∷ db.requests }))
            may.active))
      (reserved-CanRelease t uid bs new (a ∷ may.path) clock db distinct unused fresh.root
        fresh.rooted refl refl refl refl refl)
