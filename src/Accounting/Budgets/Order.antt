-- ===== src/Accounting/Budgets/Order.antt =====
-- packages/domain/accounting.py: the active budgets of a path are rows of the table, each once.
use quiblyx.Common.{
  ℕ, ◌≡◌, refl, ◌∙◌, ap, inl, inr, Bool, true, false, Bool-cases, some, List, [], ◌∷◌, arith,
  contains, map, ◌==◌, ◌&&◌, ◌||◌, leb, scalar, scalar_hit, select, All, All-map, All-zip,
  All-select, Distinct, absent,
}
use quiblyx.Model.{Db, Budget, Period}
use quiblyx.Accounting.Budgets.{active_budgets, insert_by_id, is_root, order_by_id, root_budget}
use quiblyx.Accounting.Budgets.Active.{is_active}
use quiblyx.Accounting.Settlement.{budget_at}

abbrev ids : List Budget → List ℕ
ids bs = map (λ b. b.id) bs

contains-insert_by_id :
    (i : ℕ) (b : Budget) (bs : List Budget)
    → contains i (ids (insert_by_id b bs)) ≡ (i == b.id) || contains i (ids bs)
unfolding insert_by_id
contains-insert_by_id i b [] = refl
contains-insert_by_id i b (c ∷ bs) = ground (arith, contains-insert_by_id i b bs)

contains-order_by_id :
    (i : ℕ) (bs : List Budget) → contains i (ids (order_by_id bs)) ≡ contains i (ids bs)
unfolding order_by_id
contains-order_by_id i [] = refl
contains-order_by_id i (b ∷ bs) =
    contains-insert_by_id i b (order_by_id bs)
    ∙ ap (λ c. (i == b.id) || c) (contains-order_by_id i bs)

Distinct-insert_by_id :
    (b : Budget) (bs : List Budget) → Distinct (b.id ∷ ids bs) → Distinct (ids (insert_by_id b bs))
unfolding insert_by_id
Distinct-insert_by_id b [] d = d
Distinct-insert_by_id b (c ∷ bs) d = elim (Bool-cases (leb b.id c.id)) [
  | inl before ↦ rw before d
  | inr after ↦ rw after (
    contains-insert_by_id c.id b bs ∙ ground (arith, d.0, d.1.0),
    Distinct-insert_by_id b bs (ground (arith, d.0), d.1.1),
  )
]

Distinct-order_by_id : (bs : List Budget) → Distinct (ids bs) → Distinct (ids (order_by_id bs))
unfolding order_by_id
Distinct-order_by_id [] d = tt
Distinct-order_by_id (b ∷ bs) d =
    Distinct-insert_by_id b (order_by_id bs)
      (contains-order_by_id b.id bs ∙ d.0, Distinct-order_by_id bs d.1)

insert_by_id-All {ℓ} :
    (P : Budget → Type ℓ) (b : Budget) (bs : List Budget)
    → P b
    → All P bs
    → All P (insert_by_id b bs)
unfolding insert_by_id
insert_by_id-All P b [] h k = (h, tt)
insert_by_id-All P b (c ∷ bs) h k = elim (Bool-cases (leb b.id c.id)) [
  | inl before ↦ rw before (h, k)
  | inr after ↦ rw after (k.0, insert_by_id-All P b bs h k.1)
]

order_by_id-All {ℓ} : (P : Budget → Type ℓ) (bs : List Budget) → All P bs → All P (order_by_id bs)
unfolding order_by_id
order_by_id-All P [] h = tt
order_by_id-All P (b ∷ bs) h = insert_by_id-All P b (order_by_id bs) h.0 (order_by_id-All P bs h.1)

contains-select :
    (i : ℕ) (p : Budget → Bool) (bs : List Budget)
    → contains i (ids bs) ≡ false
    → contains i (ids (select p bs)) ≡ false
contains-select i p [] h = refl
contains-select i p (b ∷ bs) h = ground (arith, contains-select i p bs)

Distinct-select :
    (p : Budget → Bool) (bs : List Budget) → Distinct (ids bs) → Distinct (ids (select p bs))
Distinct-select p [] d = tt
Distinct-select p (b ∷ bs) d = elim (Bool-cases (p b)) [
  | inl chosen ↦ rw chosen (contains-select b.id p bs d.0, Distinct-select p bs d.1)
  | inr passed ↦ rw passed (Distinct-select p bs d.1)
]

select_hits : (p : Budget → Bool) (bs : List Budget) → All (λ b. p b ≡ true) (select p bs)
select_hits p [] = tt
select_hits p (b ∷ bs) = elim (Bool-cases (p b)) [
  | inl chosen ↦ rw chosen (chosen, select_hits p bs)
  | inr passed ↦ rw passed (select_hits p bs)
]

-- A query for a row's identifier and tenant finds the row.
rows_found :
    (t : ℕ) (rows : List Budget)
    → Distinct (ids rows)
    → All
        (λ b. b.tenant_id ≡ t → scalar (λ r. (r.id == b.id) && (r.tenant_id == t)) rows ≡ some b)
        rows
rows_found t [] d = tt
rows_found t (x ∷ rows) d = (
  λ own. ground (arith, own),
  All-map _ _ rows (λ b both own. ground (arith, both.0, both.1 own))
      (All-zip _ _ rows (absent (λ b. b.id) x.id rows d.0) (rows_found t rows d.1)),
)

-- A row that is picked is among the picked ones.
found-select :
    (p q : Budget → Bool) (rows : List Budget) (b : Budget)
    → scalar p rows ≡ some b
    → q b ≡ true
    → contains b.id (ids (select q rows)) ≡ true
found-select p q [] b e h = cc
found-select p q (x ∷ rows) b e h = ground (arith, found-select p q rows b)

module _ (db : Db) (t : ℕ) (scopes : List ℕ) (period day : Period)
    (distinct : Distinct (ids db.budgets)) where
  pub active_budgets-Distinct : Distinct (ids (active_budgets db t scopes period day))
  unfolding active_budgets
  active_budgets-Distinct =
      Distinct-order_by_id _ (Distinct-select (is_active t scopes period day) db.budgets distinct)

  pub active_budgets-found :
      All (λ b. budget_at db t b.id ≡ some b) (active_budgets db t scopes period day)
  unfolding active_budgets
  active_budgets-found =
      let p = is_active t scopes period day in
      order_by_id-All _ (select p db.budgets) (
        All-map _ _ (select p db.budgets) (λ b both. both.0 (ground (arith, both.1)))
          (All-zip _ _ (select p db.budgets)
            (All-select _ p db.budgets (rows_found t db.budgets distinct))
            (select_hits p db.budgets)))

-- The root budget of the month is active, whatever groups the path has.
pub active_budgets-root :
    (db : Db) (t : ℕ) (scopes : List ℕ) (period day : Period) (root : Budget)
    → root_budget db t period ≡ some root
    → contains root.id (ids (active_budgets db t (t ∷ scopes) period day)) ≡ true
unfolding active_budgets
active_budgets-root db t scopes period day root found =
    contains-order_by_id root.id (select (is_active t (t ∷ scopes) period day) db.budgets)
    ∙ found-select (is_root t period) (is_active t (t ∷ scopes) period day) db.budgets root found
        (ground (arith, scalar_hit (is_root t period) db.budgets root found))
