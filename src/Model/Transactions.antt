-- ===== src/Model/Transactions.antt =====
-- packages/domain/db.py: what holds before a transaction holds after it, if the body keeps it.
use quiblyx.Common.{◌≡◌, refl, Error, Result, ok, err, Result-cases, inl, inr, arith}
use quiblyx.Model.Database.{Db, and_then, transaction}

pub transaction-keeps {ℓ κ} :
    {A : Type ℓ} (P : Db → Type κ) (body : Db → Result (A × Db)) (db : Db)
    → P db
    → ((a : A) (db' : Db) → body db ≡ ok (a, db') → P db')
    → P (transaction body db).1
transaction-keeps {A} P body db h keep = go (body db) keep
  where
    go :
        (r : Result (A × Db))
        → ((a : A) (db' : Db) → r ≡ ok (a, db') → P db')
        → P (elim r as (λ _. Result A × Db) [ ok (a, db') ↦ (ok a, db') | err e ↦ (err e, db) ]).1
    go (ok (a, db')) k = k a db' refl
    go (err e) k = h

-- A transaction that returns a value has committed what its body wrote.
pub transaction-eq-ok {ℓ} :
    {A : Type ℓ} (body : Db → Result (A × Db)) (db : Db) (a : A) (db' : Db)
    → transaction body db ≡ (ok a, db')
    → body db ≡ ok (a, db')
transaction-eq-ok body db a db' e = elim (Result-cases (body db)) [
  | inl (x, failed) ↦ absurd (ground arith)
  | inr (x, done) ↦ ground arith
]

-- One that raises has written nothing.
pub transaction-eq-err {ℓ} :
    {A : Type ℓ} (body : Db → Result (A × Db)) (db : Db) (e : Error) (db' : Db)
    → transaction body db ≡ (err e, db')
    → db' ≡ db
transaction-eq-err body db e db' h = elim (Result-cases (body db)) [
  | inl (x, failed) ↦ ground arith
  | inr (x, done) ↦ absurd (ground arith)
]

-- What holds after a call holds after what follows it, if that keeps it.
pub and_then-keeps {ℓ κ μ} :
    {A : Type ℓ} {B : Type κ} (P : Db → Type μ) (call : Result A × Db)
    (next : A → Db → Result B × Db)
    → P call.1
    → ((a : A) (db : Db) → P db → P (next a db).1)
    → P (and_then call next).1
and_then-keeps P (ok a, db) next h keep = keep a db h
and_then-keeps P (err e, db) next h keep = h
