-- ===== src/Common/Keys.antt =====
-- Tables whose rows have distinct keys.
use Prim.Native.Nat.{ℕ, ◌+◌, ◌≤◌}
use mathlib.Core.Path.{◌≡◌, refl, sym, ap, ◌∙◌}
use mathlib.Core.Logic.{◌≢◌, inl, inr}
use mathlib.Core.Bool.{Bool, true, false}
use mathlib.Core.Option.{Option, some}
use mathlib.Core.Option
use mathlib.Core.List.{List, [], ◌∷◌, map}
use native.Mathlib.Omega.{arith}
use quiblyx.Common.Tests.{Bool-cases, if◌then◌else◌, ◌==◌}
use quiblyx.Common.Lists.{any, contains, All, All-map, scalar, select, update, length}

abbrev pub Distinct : List ℕ → Type 0
Distinct [] = Unit
Distinct (x ∷ xs) = (contains x xs ≡ false) × Distinct xs

module _ {ℓ} {A : Type ℓ} where
  pub All-zip {κ μ} :
      (P : A → Type κ) (Q : A → Type μ) (xs : List A)
      → All P xs
      → All Q xs
      → All (λ x. P x × Q x) xs
  All-zip P Q [] h k = tt
  All-zip P Q (x ∷ xs) h k = ((h.0, k.0), All-zip P Q xs h.1 k.1)

  pub map-update {κ} :
      {B : Type κ} (g : A → B) (p : A → Bool) (f : A → A) (xs : List A)
      → ((x : A) → g (f x) ≡ g x)
      → map g (update p f xs) ≡ map g xs
  map-update g p f [] h = refl
  map-update g p f (x ∷ xs) h = ground (arith, h x, map-update g p f xs h)

  -- What a query finds meets its condition.
  pub scalar_hit : (p : A → Bool) (xs : List A) (b : A) → scalar p xs ≡ some b → p b ≡ true
  scalar_hit p [] b e = cc
  scalar_hit p (x ∷ xs) b e = ground (arith, scalar_hit p xs b)

  module _ (key : A → ℕ) where
    pub absent : (k : ℕ) (xs : List A) → contains k (map key xs) ≡ false → All (λ x. key x ≢ k) xs
    absent k [] h = tt
    absent k (x ∷ xs) h = (ground arith, absent k xs (ground arith))

    pub scalar-contains :
        (p : A → Bool) (xs : List A) (b : A)
        → scalar p xs ≡ some b
        → contains (key b) (map key xs) ≡ true
    scalar-contains p [] b e = cc
    scalar-contains p (x ∷ xs) b e = ground (arith, scalar-contains p xs b)

    -- If `p` asks for the key `k`, the row that it finds is the only one with that key.
    pub only_row :
        (p : A → Bool) (k : ℕ) (xs : List A) (b : A)
        → ((x : A) → p x ≡ true → key x ≡ k)
        → Distinct (map key xs)
        → scalar p xs ≡ some b
        → All (λ x. key x ≡ k → x ≡ b) xs
    only_row p k [] b asks d e = tt
    only_row p k (x ∷ xs) b asks d e = elim (Bool-cases (p x)) [
      | inl hit ↦ (
        λ _. ground arith,
        All-map _ _ xs (λ y ne same. absurd (ne (same ∙ sym (asks x hit)))) (absent (key x) xs d.0),
      )
      | inr miss ↦
          let found : scalar p xs ≡ some b = ground arith in
          (λ same. absurd (clash same found), only_row p k xs b asks d.1 found)
    ]
      where
        clash : key x ≡ k → scalar p xs ≡ some b → ⊥
        clash same found = ground (
          arith,
          scalar-contains p xs b found,
          asks b (scalar_hit p xs b found),
          ap (λ n. contains n (map key xs)) (same ∙ sym (asks b (scalar_hit p xs b found))),
        )

    -- A row that some query finds is the only one with its key.
    pub found_row :
        (p : A → Bool) (xs : List A) (b : A)
        → Distinct (map key xs)
        → scalar p xs ≡ some b
        → All (λ x. key x ≡ key b → x ≡ b) xs
    found_row p [] b d e = tt
    found_row p (x ∷ xs) b d e = elim (Bool-cases (p x)) [
      | inl hit ↦
          let same : x ≡ b = ground arith in
          (
            λ _. same,
            All-map _ _ xs (λ y ne clash. absurd (ne (clash ∙ sym (ap key same))))
                (absent (key x) xs d.0),
          )
      | inr miss ↦
          let found : scalar p xs ≡ some b = ground arith in
          (
            λ same. absurd (
                ground
                  (arith, scalar-contains p xs b found, ap (λ n. contains n (map key xs)) same)),
            found_row p xs b d.1 found,
          )
    ]

  pub Distinct-update :
      (key : A → ℕ) (p : A → Bool) (f : A → A) (xs : List A)
      → ((x : A) → key (f x) ≡ key x)
      → Distinct (map key xs)
      → Distinct (map key (update p f xs))
  Distinct-update key p f xs same d = rw (map-update key p f xs same) d

module _ {ℓ} {A : Type ℓ} (p q : A → Bool) (f : A → A) where
  -- A query finds the same row after an update that the query does not see, changed if picked.
  pub scalar-update :
      (xs : List A)
      → ((x : A) → p (f x) ≡ p x)
      → scalar p (update q f xs) ≡ Option.map (λ x. if q x then f x else x) (scalar p xs)
  scalar-update [] same = refl
  scalar-update (x ∷ xs) same = ground (arith, same x, scalar-update xs same)

  -- An update that leaves the selected rows selected loses none of them.
  pub select-update :
      (xs : List A)
      → All (λ x. p x ≡ true → p (if q x then f x else x) ≡ true) xs
      → length (select p xs) ≤ length (select p (update q f xs))
  select-update [] h = omega arith
  select-update (x ∷ xs) h = ground (arith, h.0, select-update xs h.1)

-- An update of the row with one key takes at most one row from a selection.
pub select-update_key {ℓ} :
    {A : Type ℓ} (key : A → ℕ) (p : A → Bool) (f : A → A) (k : ℕ) (xs : List A)
    → Distinct (map key xs)
    → length (select p xs) ≤ length (select p (update (λ x. key x == k) f xs)) + 1
select-update_key key p f k [] d = omega arith
select-update_key key p f k (x ∷ xs) d = elim (Bool-cases (key x == k)) [
  | inl hit ↦ ground (
    arith,
    select-update p (λ x. key x == k) f xs
        (All-map _ _ xs
          (λ y ne chosen. elim (Bool-cases (key y == k)) [
            | inl same ↦ absurd (ground arith)
            | inr other ↦ ground arith
          ])
          (absent key (key x) xs d.0)),
  )
  | inr miss ↦ ground (arith, select-update_key key p f k xs d.1)
]

module _ {ℓ} {A : Type ℓ} where
  pub scalar-any : (p : A → Bool) (xs : List A) (y : A) → scalar p xs ≡ some y → any p xs ≡ true
  scalar-any p [] y e = absurd (ground arith)
  scalar-any p (x ∷ xs) y e = ground (arith, scalar-any p xs y)

  pub any-update :
      (p q : A → Bool) (f : A → A) (xs : List A)
      → ((x : A) → p (f x) ≡ p x)
      → any p (update q f xs) ≡ any p xs
  any-update p q f [] same = refl
  any-update p q f (x ∷ xs) same = ground (arith, same x, any-update p q f xs same)

  -- A row more hides none.
  pub any-cons : (p : A → Bool) (x : A) (xs : List A) → any p xs ≡ true → any p (x ∷ xs) ≡ true
  any-cons p x xs h = ground arith
