-- ===== src/Accounting/Budgets/Active.antt =====
-- The budgets that apply to a request or a contract (packages/domain/accounting.py): their order
-- does not matter, each is met once, and the loops over them amount to one update of the table.
use quiblyx.Common.{
  ℕ, ◌+◌, ◌≤◌, ◌≡◌, refl, ◌∙◌, ap, Bool, true, false, ◌&&◌, ◌||◌, List, [], ◌∷◌, map, arith, String,
  leb, ◌==◌, if◌then◌else◌, Bool-cases, inl, inr, contains, select, update, sum_by, All, All-map,
  Distinct, absent, ltb_false→le, ok, >>=-eq-ok, raise_if-eq-ok,
}
use quiblyx.Model.{Budget, Period, period_eq}
use quiblyx.Accounting.Budgets.{Bounds, bound_of, insert_by_id, order_by_id, in_scope, check_limits}

-- A budget of the scopes for the month or for the day.
abbrev pub is_active : ℕ → List ℕ → Period → Period → Budget → Bool
is_active tenant scopes period day b =
    in_scope tenant scopes b && (period_eq b.period period || period_eq b.period day)

abbrev pub reserve_on : Bounds → Budget → Budget
reserve_on bs b = record b { reserved = b.reserved + bound_of bs b.unit }

-- What the loop over `active` reserves on the budget with identifier `i`.
abbrev pub reserved_for : Bounds → ℕ → List Budget → ℕ
reserved_for bs i = sum_by (λ b. if i == b.id then bound_of bs b.unit else 0)

-- The loop's updates of the table, one after another.
unfoldable pub reserve_rows : Bounds → List Budget → List Budget → List Budget
reserve_rows bs [] rows = rows
reserve_rows bs (b ∷ active) rows =
    reserve_rows bs active (
      update (λ r. r.id == b.id) (λ r. record r { reserved = r.reserved + bound_of bs b.unit })
        rows)

abbrev raised : Bounds → List Budget → Budget → Budget
raised bs active r = record r { reserved = r.reserved + reserved_for bs r.id active }

map-update_row :
    (bs : Bounds) (b : Budget) (active rows : List Budget)
    → map (raised bs active) (
        update
          (λ r. r.id == b.id)
          (λ r. record r { reserved = r.reserved + bound_of bs b.unit })
          rows)
      ≡ map (raised bs (b ∷ active)) rows
map-update_row bs b active [] = refl
map-update_row bs b active (r ∷ rows) = ground (arith, map-update_row bs b active rows)

map_id : (bs : Bounds) (rows : List Budget) → rows ≡ map (raised bs []) rows
map_id bs [] = refl
map_id bs (r ∷ rows) = ground (arith, map_id bs rows)

reserve_rows-eq-map :
    (bs : Bounds) (active rows : List Budget)
    → reserve_rows bs active rows ≡ map (raised bs active) rows
unfolding reserve_rows
reserve_rows-eq-map bs [] rows = map_id bs rows
reserve_rows-eq-map bs (b ∷ active) rows =
    reserve_rows-eq-map bs active _ ∙ map-update_row bs b active rows

sum_by-insert_by_id :
    (w : Budget → ℕ) (b : Budget) (bs : List Budget)
    → sum_by w (insert_by_id b bs) ≡ w b + sum_by w bs
unfolding insert_by_id
sum_by-insert_by_id w b [] = refl
sum_by-insert_by_id w b (c ∷ bs) = ground (arith, sum_by-insert_by_id w b bs)

sum_by-order_by_id : (w : Budget → ℕ) (bs : List Budget) → sum_by w (order_by_id bs) ≡ sum_by w bs
unfolding order_by_id
sum_by-order_by_id w [] = refl
sum_by-order_by_id w (b ∷ bs) =
    sum_by-insert_by_id w b (order_by_id bs) ∙ ap (λ n. w b + n) (sum_by-order_by_id w bs)

module _ (bs : Bounds) (p : Budget → Bool) where
  none_for :
      (i : ℕ) (rows : List Budget)
      → contains i (map (λ b. b.id) rows) ≡ false
      → reserved_for bs i (select p rows) ≡ 0
  none_for i [] h = refl
  none_for i (r ∷ rows) h = ground (arith, none_for i rows)

  -- Identifiers are distinct, so a row is reserved on once if it is selected, and else never.
  reserved_for-select :
      (rows : List Budget)
      → Distinct (map (λ b. b.id) rows)
      → All
          (λ r. reserved_for bs r.id (select p rows) ≡ (if p r then bound_of bs r.unit else 0))
          rows
  reserved_for-select [] d = tt
  reserved_for-select (r ∷ rows) d = (
    ground (arith, none_for r.id rows),
    later rows (absent (λ b. b.id) r.id rows d.0) (reserved_for-select rows d.1),
  )
    where
      later :
          (xs : List Budget)
          → All (λ x. ¬ (x.id ≡ r.id)) xs
          → All
              (λ x. reserved_for bs x.id (select p rows) ≡ (if p x then bound_of bs x.unit else 0))
              xs
          → All
              (λ x.
                reserved_for bs x.id (select p (r ∷ rows))
                ≡ (if p x then bound_of bs x.unit else 0))
              xs
      later [] n h = tt
      later (x ∷ xs) n h = (ground (arith), later xs n.1 h.1)

  map-raised :
      (active rows : List Budget)
      → All (λ r. reserved_for bs r.id active ≡ (if p r then bound_of bs r.unit else 0)) rows
      → map (raised bs active) rows ≡ update p (reserve_on bs) rows
  map-raised active [] h = refl
  map-raised active (r ∷ rows) h = ground (arith, map-raised active rows h.1)

-- The loop over the selected budgets, in the order of their identifiers, is one update.
pub reserve_rows-eq-update :
    (bs : Bounds) (p : Budget → Bool) (rows : List Budget)
    → Distinct (map (λ b. b.id) rows)
    → reserve_rows bs (order_by_id (select p rows)) rows ≡ update p (reserve_on bs) rows
reserve_rows-eq-update bs p rows d =
    reserve_rows-eq-map bs _ rows
    ∙ map-raised bs p _ rows (
        All-map _ _ rows (λ r h. sum_by-order_by_id _ (select p rows) ∙ h)
          (reserved_for-select bs p rows d))

-- A budget can take its bound without passing its limit.
abbrev pub Fits : Bounds → Budget → Type 0
Fits bs b = b.spent + b.reserved + bound_of bs b.unit ≤ b.hard_limit

check_limits-All :
    (bs : Bounds) (d : String) (active : List Budget)
    → check_limits bs d active ≡ ok tt
    → All (Fits bs) active
unfolding check_limits
check_limits-All bs d [] e = tt
check_limits-All bs d (b ∷ active) e =
    let (_, e1, rest) = >>=-eq-ok _ _ e in
    (ltb_false→le _ _ (raise_if-eq-ok _ _ e1), check_limits-All bs d active rest)

All-insert_by_id {ℓ} :
    (P : Budget → Type ℓ) (b : Budget) (bs : List Budget)
    → All P (insert_by_id b bs)
    → P b × All P bs
unfolding insert_by_id
All-insert_by_id P b [] h = h
All-insert_by_id P b (c ∷ bs) h = elim (Bool-cases (leb b.id c.id)) [
  | inl before ↦ (rw before at h)
  | inr after ↦
      let later = rw after at h in
      let (hb, hbs) = All-insert_by_id P b bs later.1 in (hb, (later.0, hbs))
]

All-order_by_id {ℓ} : (P : Budget → Type ℓ) (bs : List Budget) → All P (order_by_id bs) → All P bs
unfolding order_by_id
All-order_by_id P [] h = h
All-order_by_id P (b ∷ bs) h =
    let (hb, hbs) = All-insert_by_id P b (order_by_id bs) h in (hb, All-order_by_id P bs hbs)

All-of_select {ℓ} :
    (P : Budget → Type ℓ) (p : Budget → Bool) (bs : List Budget)
    → All P (select p bs)
    → All (λ b. p b ≡ true → P b) bs
All-of_select P p [] h = tt
All-of_select P p (b ∷ bs) h = elim (Bool-cases (p b)) [
  | inl chosen ↦ let parts = rw chosen at h in ((λ _. parts.0), All-of_select P p bs parts.1)
  | inr passed ↦ let rest = rw passed at h in ((λ chosen. absurd (cc)), All-of_select P p bs rest)
]

-- If the loop that checks the limits passes, each active budget of the table fits.
pub check_limits-Fits :
    (bs : Bounds) (d : String) (p : Budget → Bool) (rows : List Budget)
    → check_limits bs d (order_by_id (select p rows)) ≡ ok tt
    → All (λ b. p b ≡ true → Fits bs b) rows
check_limits-Fits bs d p rows e =
    All-of_select (Fits bs) p rows (All-order_by_id (Fits bs) _ (check_limits-All bs d _ e))
