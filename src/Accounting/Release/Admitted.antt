-- ===== src/Accounting/Release/Admitted.antt =====
-- packages/domain/accounting.py: the reservations that `admit` makes are backed by their budgets.
use quiblyx.Common.{
  ℕ, ◌+◌, ◌≡◌, ◌≢◌, refl, sym, ◌∙◌, ap, subst, Bool, true, false, some, List, [], ◌∷◌, arith,
  contains, map, ◌==◌, ==_refl, ◌&&◌, ◌||◌, if◌then◌else◌, scalar, scalar-update, scalar_hit, All,
  All-map, All-zip, Distinct, absent,
}
use quiblyx.Model.{Db, Budget, Reservation}
use quiblyx.Accounting.Budgets.{Bounds, bound_of}
use quiblyx.Accounting.Budgets.Thresholds.{threshold_events-frame}
use quiblyx.Accounting.Admission.{reserve_all, reserve_budget}
use quiblyx.Accounting.Admission.Limits.{reserve_budget-budgets}
use quiblyx.Accounting.Settlement.{budget_at, reservations_of}
use quiblyx.Accounting.Release.{IsBacked, other-IsBacked}

module _ (t q : ℕ) (bs : Bounds) where
  abbrev reserved_ids : Db → List ℕ
  reserved_ids db = map (λ r. r.budget_id) (reservations_of db t q)

  -- Each reservation of the request has a budget of its own that covers it.
  pub record AreBacked (db : Db) : Type 0 where
    pub distinct : Distinct (reserved_ids db)
    pub backed : All (IsBacked t db) (reservations_of db t q)

  -- A budget that the loop has not met: it exists, and the request has no reservation on it.
  pub record IsAhead (db : Db) (b : Budget) : Type 0 where
    pub unmet : contains b.id (reserved_ids db) ≡ false
    pub row : Budget
    pub found : budget_at db t b.id ≡ some row

  abbrev new_reservation : Budget → Reservation
  new_reservation b = record {
    tenant_id = t;
    request_id = q;
    budget_id = b.id;
    amount = bound_of bs b.unit;
    settled = false;
  }

  reserve_budget-reservations :
      (b : Budget) (db : Db)
      → reservations_of (reserve_budget t q bs b db) t q
        ≡ new_reservation b ∷ reservations_of db t q
  unfolding reserve_budget
  reserve_budget-reservations b db = rw (threshold_events-frame, ==_refl t, ==_refl q) refl

  abbrev raise : Budget → Budget → Budget
  raise b r = record r { reserved = r.reserved + bound_of bs b.unit }

  -- A query for a budget of the tenant after one round.
  reserve_budget-found :
      (b : Budget) (i : ℕ) (row : Budget) (db : Db)
      → budget_at db t i ≡ some row
      → budget_at (reserve_budget t q bs b db) t i
        ≡ some (if row.id == b.id then raise b row else row)
  reserve_budget-found b i row db found =
      let p : Budget → Bool = λ r. (r.id == i) && (r.tenant_id == t) in
      ap (scalar p) (reserve_budget-budgets t q bs b db)
      ∙ scalar-update p (λ r. r.id == b.id) (raise b) db.budgets (λ r. refl)
      ∙ rw found refl

  -- One round backs its reservation and leaves the others backed.
  reserve_budget-AreBacked :
      (b : Budget) (db : Db) → AreBacked db → IsAhead db b → AreBacked (reserve_budget t q bs b db)
  reserve_budget-AreBacked b db h ahead =
      let rows = reserve_budget-reservations b db in
      let next = reserve_budget t q bs b db in
      let hit =
        scalar_hit (λ (r : Budget). (r.id == b.id) && (r.tenant_id == t)) db.budgets ahead.row
          ahead.found in
      let same : (ahead.row.id == b.id) ≡ true = ground arith in
      let mine : IsBacked t next (new_reservation b) = record {
        budget = raise b ahead.row;
        found = reserve_budget-found b b.id ahead.row db ahead.found ∙ rw same refl;
        covered = omega arith;
      } in
      let others =
        All-map _ (IsBacked t next) (reservations_of db t q)
          (λ r both.
            other-IsBacked t b.id (raise b) db next r (λ x. refl) (λ x. refl)
              (reserve_budget-budgets t q bs b db) both.0 both.1)
          (All-zip _ (IsBacked t db) (reservations_of db t q)
            (absent (λ r. r.budget_id) b.id (reservations_of db t q) ahead.unmet) h.backed) in
      record {
        distinct =
            subst (λ rs. Distinct (map (λ r. r.budget_id) rs)) (sym rows) (ahead.unmet, h.distinct);
        backed = subst (All (IsBacked t next)) (sym rows) (mine, others);
      }

  -- The rest of the loop stays ahead.
  reserve_budget-IsAhead :
      (b c : Budget) (db : Db) → c.id ≢ b.id → IsAhead db c → IsAhead (reserve_budget t q bs b db) c
  reserve_budget-IsAhead b c db ne ahead = record {
    unmet =
        ap (λ rs. contains c.id (map (λ r. r.budget_id) rs)) (reserve_budget-reservations b db)
        ∙ ground (arith, ne, ahead.unmet);
    row = if ahead.row.id == b.id then raise b ahead.row else ahead.row;
    found = reserve_budget-found b c.id ahead.row db ahead.found;
  }

  pub reserve_all-AreBacked :
      (active : List Budget) (db : Db)
      → Distinct (map (λ b. b.id) active)
      → All (IsAhead db) active
      → AreBacked db
      → AreBacked (reserve_all t q bs active db)
  unfolding reserve_all
  reserve_all-AreBacked [] db d ahead h = h
  reserve_all-AreBacked (b ∷ active) db d ahead h =
      let next = reserve_budget t q bs b db in
      reserve_all-AreBacked active next d.1
        (All-map _ (IsAhead next) active (λ c both. reserve_budget-IsAhead b c db both.0 both.1)
          (All-zip _ (IsAhead db) active (absent (λ c. c.id) b.id active d.0) ahead.1))
        (reserve_budget-AreBacked b db h ahead.0)

  -- The loop makes a reservation on each of its budgets.
  pub reserve_all-contains :
      (active : List Budget) (i : ℕ) (db : Db)
      → (contains i (map (λ b. b.id) active) || contains i (reserved_ids db)) ≡ true
      → contains i (reserved_ids (reserve_all t q bs active db)) ≡ true
  unfolding reserve_all
  reserve_all-contains [] i db h = h
  reserve_all-contains (b ∷ active) i db h =
      reserve_all-contains active i (reserve_budget t q bs b db) (
        ap (λ rs. contains i (map (λ x. x.id) active) || contains i (map (λ r. r.budget_id) rs))
          (reserve_budget-reservations b db)
        ∙ ground (arith, h))
