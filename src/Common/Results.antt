-- ===== src/Common/Results.antt =====
-- Exceptions as values. A block under `transaction` returns its result with the new state, or an
-- error alone.
use Prim.Native.Nat.{ℕ}
use Prim.Native.String.{String}
use mathlib.Core.Path.{◌≡◌, refl, ap}
use mathlib.Core.Bool.{Bool, true, false}
use mathlib.Core.Logic.{◌⊎◌, inl, inr}
use mathlib.Core.Option.{Option, none, some}

-- `http` is `HTTPException(status, detail)`, `integrity_error` the database's refusal of a row
-- that breaks a CHECK constraint, `attribute_error` a field of `None`, `key_error` a missing key
-- of a dict.
pub data Error : Type 0 where
  http : ℕ → String → Error
  value_error : String → Error
  integrity_error attribute_error key_error : Error

pub data Result {ℓ} (Value : Type ℓ) : Type ℓ where
  err : Error → Result Value
  ok : Value → Result Value

module _ {ℓ κ} {Value : Type ℓ} {Next : Type κ} where
  -- An exception skips what follows.
  infixl 5 ◌>>=◌
  abbrev pub ◌>>=◌ : Result Value → (Value → Result Next) → Result Next
  (err raised) >>= next = err raised
  (ok v) >>= next = next v

  -- What a block that returned has passed through.
  pub >>=-eq-ok :
      (first : Result Value) (next : Value → Result Next) {n : Next}
      → (first >>= next) ≡ ok n
      → (v : Value) × (first ≡ ok v) × (next v ≡ ok n)
  >>=-eq-ok (err raised) next h = cc
  >>=-eq-ok (ok v) next h = (v, refl, h)

infixl 5 ◌>>◌
abbrev pub ◌>>◌ {κ} : {Next : Type κ} → Result (Unit {0}) → Result Next → Result Next
first >> next = first >>= (λ (_ : Unit {0}). next)

-- `if c: raise e`
abbrev pub raise_if : Bool → Error → Result (Unit {0})
raise_if false raised = ok tt
raise_if true raised = err raised

pub raise_if-eq-ok : (c : Bool) (e : Error) {u : Unit {0}} → raise_if c e ≡ ok u → c ≡ false
raise_if-eq-ok false e h = refl
raise_if-eq-ok true e h = cc

module _ {ℓ} {Row : Type ℓ} where
  -- `if row is None: raise e`
  abbrev pub or_raise : Option Row → Error → Result Row
  or_raise (some row) missing = ok row
  or_raise none missing = err missing

  pub or_raise-eq-ok :
      (found : Option Row) (e : Error) {row : Row} → or_raise found e ≡ ok row → found ≡ some row
  or_raise-eq-ok (some row) e h = cc
  or_raise-eq-ok none e h = cc

  pub Result-cases : (r : Result Row) → ((e : Error) × (r ≡ err e)) ⊎ ((v : Row) × (r ≡ ok v))
  Result-cases (err e) = inl (e, refl)
  Result-cases (ok v) = inr (v, refl)

-- Two successes that are equal leave the same state.
pub ok-state {ℓ κ} :
    {A : Type ℓ} {S : Type κ} {a a' : A} (s s' : S)
    → ◌≡◌ {A = Result (A × S)} (ok (a, s)) (ok (a', s'))
    → s ≡ s'
ok-state s s' e = ap (λ r. elim r [ ok out ↦ out.1 | err _ ↦ s ]) e
