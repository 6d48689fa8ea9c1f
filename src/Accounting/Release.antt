-- ===== src/Accounting/Release.antt =====
-- packages/domain/accounting.py: a request that was just admitted can be released by `settle`.
pub mod Admitted
use quiblyx.Common.{
  ℕ, ◌+◌, ◌-◌, ◌≤◌, ◌≡◌, ◌≢◌, refl, sym, ◌∙◌, ap, subst, inl, inr, Bool, true, false, Bool-cases,
  none, some, Option-cases, List, [], ◌∷◌, arith, contains, map, ◌==◌, ==_iff, &&_true,
  if◌then◌else◌, ltb, scalar, scalar-update, scalar_hit, update, All, All-map, All-zip, Distinct,
  absent, pos, Result, ok, err, ◌>>=◌, ◌&&◌, select,
}
use quiblyx.Model.{Db, Budget, Reservation, Request, RequestState}
use quiblyx.Accounting.Settlement.{
  Usage, actual_usage, budget_at, charge, reservations_of, settle_all, settle_reservation, within,
}

-- A reservation's budget exists and has reserved the amount.
pub record IsBacked (t : ℕ) (db : Db) (r : Reservation) : Type 0 where
  pub budget : Budget
  pub found : budget_at db t r.budget_id ≡ some budget
  pub covered : r.amount ≤ budget.reserved

-- A change of another budget does not matter.
pub other-IsBacked :
    (t i : ℕ) (f : Budget → Budget) (db db' : Db) (r : Reservation)
    → ((b : Budget) → (f b).id ≡ b.id)
    → ((b : Budget) → (f b).tenant_id ≡ b.tenant_id)
    → db'.budgets ≡ update (λ b. b.id == i) f db.budgets
    → r.budget_id ≢ i
    → IsBacked t db r
    → IsBacked t db' r
other-IsBacked t i f db db' r same_id same_tenant rows ne h =
    let p : Budget → Bool = λ b. (b.id == r.budget_id) && (b.tenant_id == t) in
    record {
      budget = h.budget;
      found =
          ap (scalar p) rows
          ∙ scalar-update p (λ b. b.id == i) f db.budgets
              (λ b. ground (arith, same_id b, same_tenant b))
          ∙ ground (arith, h.found, scalar_hit p db.budgets h.budget h.found);
      covered = h.covered;
    }

module _ (t q bound : ℕ) (u : Usage) (unsent : u.pre_dispatch ≡ true) where
  -- One round charges nothing and cannot be refused.
  settle_reservation-releases :
      (r : Reservation) (db : Db)
      → IsBacked t db r
      → settle_reservation t q 0 bound u r db ≡ ok (charge t q r 0 db)
  unfolding settle_reservation within actual_usage
  settle_reservation-releases r db h =
      let found = h.found in let covered = h.covered in ground arith

  pub settle_all-releases :
      (rs : List Reservation) (db : Db)
      → Distinct (map (λ r. r.budget_id) rs)
      → All (IsBacked t db) rs
      → (db' : Db) × (settle_all t q 0 bound u rs db ≡ ok db')
  unfolding settle_all charge
  settle_all-releases [] db d h = (db, refl)
  settle_all-releases (r ∷ rs) db d h =
      let next = charge t q r 0 db in
      let others =
        All-map _ (IsBacked t next) rs
          (λ x both.
            other-IsBacked t r.budget_id _ db next x (λ b. refl) (λ b. refl) refl both.0 both.1)
          (All-zip _ (IsBacked t db) rs (absent (λ x. x.budget_id) r.budget_id rs d.0) h.1) in
      let (db', done) = settle_all-releases rs next d.1 others in
      (
        db',
        ap (λ first. first >>= settle_all t q 0 bound u rs) (settle_reservation-releases r db h.0)
            ∙ done,
      )
