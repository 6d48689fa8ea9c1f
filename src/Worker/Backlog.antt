-- ===== src/Worker/Backlog.antt =====
-- `drain` of services/worker/main.py: how fast the outbox empties.
use quiblyx.Common.{
  ℕ, zero, suc, ◌-◌, ◌*◌, ◌≤◌, ◌≡◌, refl, ap, inl, inr, Bool, true, false, Bool-cases, Option, none,
  some, List, [], ◌∷◌, map, arith, ◌==◌, ==_iff, contains, length, select,
}
use quiblyx.Model.{Db, Event}
use quiblyx.Worker.{
  Mail, mail_of, batch, is_pending, take, delivered, mark, send_one, send_all, drain_all, drain,
}

module _ (p q : Event → Bool) where
  -- A delivered row is pending for nobody, so a mark adds no row to a backlog.
  select-mark :
      (n : ℕ) (rows : List Event)
      → ((e : Event) → q (delivered e) ≡ false)
      → length (select q (mark p n rows)) ≤ length (select q rows)
  unfolding mark
  select-mark zero rows gone = omega arith
  select-mark (suc n) [] gone = omega arith
  select-mark (suc n) (e ∷ rows) gone =
      ground (arith, gone e, select-mark n rows gone, select-mark (suc n) rows gone)

-- It takes as many from its own backlog as it may.
select-mark_self :
    (p : Event → Bool) (n : ℕ) (rows : List Event)
    → ((e : Event) → p (delivered e) ≡ false)
    → length (select p (mark p n rows)) ≡ length (select p rows) - n
unfolding mark
select-mark_self p zero rows gone = omega arith
select-mark_self p (suc n) [] gone = omega arith
select-mark_self p (suc n) (e ∷ rows) gone =
    ground (arith, gone e, select-mark_self p n rows gone, select-mark_self p (suc n) rows gone)

send_all-done :
    (accepts : Mail → Bool) (events : List Event)
    → ((m : Mail) → accepts m ≡ true)
    → (send_all accepts events).failed ≡ false
unfolding send_all
send_all-done accepts [] up = refl
send_all-done accepts (e ∷ events) up = sent (mail_of e) (send_all-done accepts events up)
  where
    sent :
        (o : Option Mail)
        → (send_all accepts events).failed ≡ false
        → (send_one accepts o (send_all accepts events)).failed ≡ false
    sent none done = done
    sent (some m) done = rw (up m) done

module _ (locked : Event → Bool) (accepts : Mail → Bool) (up : (m : Mail) → accepts m ≡ true) where
  -- How many events of the tenant wait, less the ones that another drain has locked.
  abbrev pub backlog : ℕ → List Event → ℕ
  backlog t rows = length (select (is_pending locked t) rows)

  is_pending-delivered : (t : ℕ) (e : Event) → is_pending locked t (delivered e) ≡ false
  is_pending-delivered t e = ground arith

  drain_all-step :
      (tenant : ℕ) (tenants : List ℕ) (rows : List Event)
      → (drain_all locked accepts (tenant ∷ tenants) rows).1
        ≡ (drain_all locked accepts tenants (mark (is_pending locked tenant) batch rows)).1
  unfolding drain_all
  drain_all-step tenant tenants rows =
      rw (send_all-done accepts (take batch (select (is_pending locked tenant) rows)) up) refl

  drain_all-backlog :
      (t : ℕ) (tenants : List ℕ) (rows : List Event)
      → (backlog t (drain_all locked accepts tenants rows).1 ≤ backlog t rows)
        × (contains t tenants ≡ true
            → backlog t (drain_all locked accepts tenants rows).1 ≤ backlog t rows - batch)
  unfolding drain_all
  drain_all-backlog t [] rows = (omega arith, λ none. absurd (cc none))
  drain_all-backlog t (tenant ∷ tenants) rows =
      let marked = mark (is_pending locked tenant) batch rows in
      let rest = drain_all-backlog t tenants marked in
      let fewer =
        select-mark (is_pending locked tenant) (is_pending locked t) batch rows
          (is_pending-delivered t) in
      let own = select-mark_self (is_pending locked t) batch rows (is_pending-delivered t) in
      rw (drain_all-step tenant tenants rows) (
        omega (arith, rest.0, fewer),
        λ listed. elim (Bool-cases (t == tenant)) [
          | inl same ↦
              let moved =
                ap (λ x. backlog t (mark (is_pending locked x) batch rows))
                  ((==_iff t tenant).0 same) in
              omega (arith, own, moved, rest.0)
          | inr other ↦ let later = rest.1 (ground arith) in omega (arith, later, fewer)
        ],
      )

  -- The beat schedules one drain after another.
  unfoldable pub drain_times : ℕ → Db → Db
  drain_times zero db = db
  drain_times (suc k) db = drain_times k (drain locked accepts db).1

  drain_times-backlog :
      (t k : ℕ) (db : Db)
      → contains t (map (λ x. x.id) db.tenants) ≡ true
      → backlog t db.events ≤ k * batch
      → backlog t (drain_times k db).events ≡ 0
  unfolding drain_times drain
  drain_times-backlog t zero db known few = omega (arith, few)
  drain_times-backlog t (suc k) db known few =
      let one = (drain_all-backlog t (map (λ x. x.id) db.tenants) db.events).1 known in
      drain_times-backlog t k (drain locked accepts db).1 known (omega (arith, one, few))

  -- If the SMTP server takes every mail, as many drains as the tenant has hundreds of waiting
  -- events (rounded up) leave no event waiting, but for those that another drain has locked.
  pub drain_times-empties :
      (t k : ℕ) (db : Db)
      → contains t (map (λ x. x.id) db.tenants) ≡ true
      → backlog t db.events ≤ k * batch
      → select (is_pending locked t) (drain_times k db).events ≡ []
  drain_times-empties t k db known few =
      length_zero (select (is_pending locked t) (drain_times k db).events)
        (drain_times-backlog t k db known few)
    where
      length_zero : (xs : List Event) → length xs ≡ 0 → xs ≡ []
      length_zero [] e = refl
      length_zero (x ∷ xs) e = absurd (omega (arith, e))
