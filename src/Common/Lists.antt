-- ===== src/Common/Lists.antt =====
-- A database table as a list of rows: selection, the first match, update in place, sums.
use Prim.Native.Nat.{ℕ, suc, ◌+◌}
use mathlib.Core.Path.{◌≡◌}
use mathlib.Core.Bool.{Bool, true, false, ◌||◌, ◌&&◌}
use mathlib.Core.Option.{Option, none, some}
use mathlib.Core.List.{List, [], ◌∷◌, ◌++◌}
use native.Mathlib.Omega.{arith}
use quiblyx.Common.Tests.{if◌then◌else◌, ◌==◌}

abbrev pub contains : ℕ → List ℕ → Bool
contains x [] = false
contains x (y ∷ ys) = x == y || contains x ys

abbrev pub All {ℓ κ} : {A : Type ℓ} → (A → Type κ) → List A → Type κ
All P [] = Unit
All P (x ∷ xs) = P x × All P xs

module _ {ℓ} {A : Type ℓ} where
  abbrev pub length : List A → ℕ
  length [] = 0
  length (x ∷ xs) = suc (length xs)

  -- `select(T).where(p)`, in the order of the table.
  abbrev pub select : (A → Bool) → List A → List A
  select p [] = []
  select p (x ∷ xs) = if p x then x ∷ select p xs else select p xs

  -- `s.scalar(select(T).where(p))`
  abbrev pub scalar : (A → Bool) → List A → Option A
  scalar p [] = none
  scalar p (x ∷ xs) = if p x then some x else scalar p xs

  -- The rows that `p` picks out are changed in place.
  abbrev pub update : (A → Bool) → (A → A) → List A → List A
  update p f [] = []
  update p f (x ∷ xs) = (if p x then f x else x) ∷ update p f xs

  abbrev pub any : (A → Bool) → List A → Bool
  any p [] = false
  any p (x ∷ xs) = p x || any p xs

  abbrev pub all : (A → Bool) → List A → Bool
  all p [] = true
  all p (x ∷ xs) = p x && all p xs

  abbrev pub sum_by : (A → ℕ) → List A → ℕ
  sum_by w [] = 0
  sum_by w (x ∷ xs) = w x + sum_by w xs

module _ {ℓ} {A : Type ℓ} where
  pub length-append : (xs ys : List A) → length (xs ++ ys) ≡ length xs + length ys
  length-append [] ys = omega arith
  length-append (x ∷ xs) ys = omega (arith, length-append xs ys)

  pub scalar-All {κ} :
      (P : A → Type κ) (p : A → Bool) (xs : List A) (x : A)
      → All P xs
      → scalar p xs ≡ some x
      → P x × (p x ≡ true)
  scalar-All P p [] x h e = ground arith
  scalar-All P p (y ∷ ys) x h e = ground (arith, scalar-All P p ys x h.1)

  pub All-select {κ} :
      (P : A → Type κ) (p : A → Bool) (xs : List A) → All P xs → All P (select p xs)
  All-select P p [] h = tt
  All-select P p (x ∷ xs) h = ground (arith, All-select P p xs h.1)

  pub All-map {κ μ} :
      (P : A → Type κ) (Q : A → Type μ) (xs : List A) → ((x : A) → P x → Q x) → All P xs → All Q xs
  All-map P Q [] f h = tt
  All-map P Q (x ∷ xs) f h = (f x h.0, All-map P Q xs f h.1)

  -- An update keeps what holds of each row, if it does so for the changed and for the other rows.
  pub All-update {κ μ} :
      (P : A → Type κ) (Q : A → Type μ) (p : A → Bool) (f : A → A) (xs : List A)
      → ((x : A) → P x → Q (if p x then f x else x))
      → All P xs
      → All Q (update p f xs)
  All-update P Q p f [] k h = tt
  All-update P Q p f (x ∷ xs) k h = (k x h.0, All-update P Q p f xs k h.1)
