-- ===== src/Examples/Admission.antt =====
-- Admission at the example organisation.
use quiblyx.Common.{any, All, ◌≡◌, refl, true, none, some, pos, ok, arith, [], map, ◌∷◌, ℕ}
use quiblyx.Model.{Db, Budget}
use quiblyx.Accounting.Budgets.{threshold_events, needs_renewal, active_budgets, check_limits}
use quiblyx.Hierarchy.{ancestry, climb}
use quiblyx.Accounting.Budgets.Thresholds.{threshold_events-announces, tells, IsKeyed}
use quiblyx.Accounting.Admission.{admit, request_bounds}
use quiblyx.Accounting.Admission.Limits.{IsReserved, admit-IsReserved}
use quiblyx.Examples.{noon, digest, greeting, start, root_row}

abbrev admitted : Db
admitted = (admit digest noon 900 1 3 2 "a" greeting (pos 50) (some 20) start).1

admit_runs :
    admit digest noon 900 1 3 2 "a" greeting (pos 50) (some 20) start ≡ (ok (900, none), admitted)
unfolding admit ancestry climb needs_renewal active_budgets check_limits threshold_events
admit_runs = refl

admitted_reserves : map (λ b. b.reserved) admitted.budgets ≡ 50 ∷ 50 ∷ []
unfolding admit ancestry climb needs_renewal active_budgets check_limits threshold_events
admitted_reserves = refl

admit-IsReserved_example :
    (◌≡◌ {A = ℕ} 900 900) × IsReserved noon 1 2 (request_bounds 50 (some 20)) start admitted
admit-IsReserved_example =
    admit-IsReserved digest noon 900 1 3 2 "a" greeting 50 (some 20) 900 start admitted
      (refl, (refl, tt)) admit_runs

abbrev nearly_full : Budget
nearly_full = record root_row { reserved = 90 }

threshold_events-announces_example :
    (any (tells 1 100 85) (threshold_events nearly_full start).events ≡ true)
    × All IsKeyed (threshold_events nearly_full start).events
unfolding tells
threshold_events-announces_example =
    threshold_events-announces nearly_full 1 100 85 start (omega arith) tt
