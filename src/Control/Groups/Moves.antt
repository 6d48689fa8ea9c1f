-- ===== src/Control/Groups/Moves.antt =====
-- `move_group` of services/control_api/main.py keeps every chain of parents finite.
use quiblyx.Common.{
  ℕ, ◌≡◌, ◌≢◌, refl, sym, subst, ◌∙◌, inl, inr, true, false, Bool-cases, Option, none, some,
  Option-cases, List, [], ◌∷◌, arith, String, ◌==◌, ==_iff, contains, ok, Result-cases,
}
use quiblyx.Model.{Db, transaction-eq-ok, Group}
use quiblyx.Hierarchy.{group_at, ancestry}
use quiblyx.Hierarchy.Chain.{IsChain, ancestry-iff-IsChain}
use quiblyx.Security.{authorize}
use quiblyx.Control.Groups.{move_group, move_group_body, reparent}

-- The group has a finite chain of parents that ends at a root.
abbrev pub IsRooted : List Group → ℕ → Option ℕ → Type 0
IsRooted groups tenant start = (path : List ℕ) × IsChain groups tenant false start path

-- Two identifiers of a group are found by the same query before and after another group moves.
group_at-reparent :
    (t g : ℕ) (p : Option ℕ) (i : ℕ) (groups : List Group)
    → i ≢ g
    → group_at (reparent t g p groups) t i ≡ group_at groups t i
group_at-reparent t g p i [] ne = refl
group_at-reparent t g p i (x ∷ groups) ne = ground (arith, group_at-reparent t g p i groups ne)

group_at-moved :
    (t g : ℕ) (p : Option ℕ) (x : Group) (groups : List Group)
    → group_at groups t g ≡ some x
    → group_at (reparent t g p groups) t g ≡ some (record x { parent_id = p })
group_at-moved t g p x [] e = cc
group_at-moved t g p x (y ∷ groups) e = ground (arith, group_at-moved t g p x groups)

module _ (groups : List Group) (t g : ℕ) (p : Option ℕ) where
  abbrev moved : List Group
  moved = reparent t g p groups

  -- A chain without the moved group is still one.
  IsChain-moved :
      (start : Option ℕ) (path : List ℕ)
      → contains g path ≡ false
      → IsChain groups t false start path
      → IsChain moved t false start path
  IsChain-moved none [] a c = tt
  IsChain-moved none (x ∷ path) a c = c
  IsChain-moved (some i) [] a c = c
  IsChain-moved (some i) (x ∷ path) a c =
      let (same, (y, found, running, rest)) = c in
      (
        same,
        (
          y,
          group_at-reparent t g p i groups (λ e. apart x i path a same e) ∙ found,
          running,
          IsChain-moved y.parent_id path (ground arith) rest,
        ),
      )
    where
      apart : (x i : ℕ) (path : List ℕ) → contains g (x ∷ path) ≡ false → x ≡ i → i ≢ g
      apart x i path a same e = ground arith

  -- Any other chain now goes through the moved group's new parent.
  IsRooted-moved :
      (y : Group) (start : Option ℕ) (path above : List ℕ)
      → group_at groups t g ≡ some y
      → IsChain moved t false (some g) (g ∷ above)
      → IsChain groups t false start path
      → IsRooted moved t start
  IsRooted-moved y none [] above e new c = ([], tt)
  IsRooted-moved y none (x ∷ path) above e new c = absurd c
  IsRooted-moved y (some i) [] above e new c = absurd c
  IsRooted-moved y (some i) (x ∷ path) above e new (same, (z, found, running, rest)) =
      let above_z = IsRooted-moved y z.parent_id path above e new rest in
      elim (Bool-cases (i == g)) [
        | inl hit ↦ let eq : i ≡ g = (==_iff i g).0 hit in rw eq (g ∷ above, new)
        | inr miss ↦ (
          x ∷ above_z.0,
          (
            same,
            (
              z,
              group_at-reparent t g p i groups (λ eq. absurd (miss_ne i miss eq)) ∙ found,
              running,
              above_z.1,
            ),
          ),
        )
      ]
    where
      miss_ne : (i : ℕ) → (i == g) ≡ false → i ≡ g → ⊥
      miss_ne i miss eq = ground arith

-- What a successful move has checked and done.
pub record IsMoved (t g : ℕ) (p : Option ℕ) (db db' : Db) : Type 0 where
  pub group : Group
  pub path : List ℕ
  pub found : group_at db.groups t g ≡ some group
  pub climbed : ancestry db t p false ≡ ok path
  pub apart : contains g path ≡ false
  pub result : db'.groups ≡ reparent t g p db.groups

move_group_body-IsMoved :
    (t g : ℕ) (p : Option ℕ) (subject : String) (n : ℕ) (db db' : Db)
    → move_group_body t g p subject db ≡ ok (n, db')
    → IsMoved t g p db db'
unfolding move_group_body
move_group_body-IsMoved t g p subject n db db' e = elim (Option-cases (group_at db.groups t g)) [
  | inl missing ↦ absurd (ground arith)
  | inr (group, found) ↦ elim (Result-cases (ancestry db t p false)) [
    | inl (_, refused) ↦ absurd (ground arith)
    | inr (path, climbed) ↦ record {
      group = group;
      path = path;
      found = found;
      climbed = climbed;
      apart = ground arith;
      result = ground arith;
    }
  ]
]

pub move_group-IsMoved :
    (t g : ℕ) (p : Option ℕ) (subject : String) (n : ℕ) (db db' : Db)
    → move_group t g p subject db ≡ (ok n, db')
    → IsMoved t g p db db'
unfolding move_group
move_group-IsMoved t g p subject n db db' e =
    elim (Result-cases (authorize db t subject true none none)) [
      | inl (_, refused) ↦ absurd (ground arith)
      | inr (role, permitted) ↦
          move_group_body-IsMoved t g p subject n db db'
            (transaction-eq-ok (move_group_body t g p subject) db n db' (ground arith))
    ]

-- After a successful move the chain of the moved group is the group and then the chain of its new
-- parent, and every group of the tenant that had a finite chain of parents still has one: no cycle
-- arises.
pub move_group-IsRooted :
    (t g : ℕ) (p : Option ℕ) (subject : String) (n : ℕ) (db db' : Db)
    → move_group t g p subject db ≡ (ok n, db')
    → ((path : List ℕ) × (ancestry db t p false ≡ ok path)
        × IsChain db'.groups t false (some g) (g ∷ path))
      × ((start : Option ℕ) → IsRooted db.groups t start → IsRooted db'.groups t start)
move_group-IsRooted t g p subject n db db' e =
    let m = move_group-IsMoved t g p subject n db db' e in
    let above = ((ancestry-iff-IsChain db t p false m.path).0 m.climbed).0 in
    let new : IsChain (reparent t g p db.groups) t false (some g) (g ∷ m.path) = (
      refl,
      (
        record m.group { parent_id = p },
        group_at-moved t g p m.group db.groups m.found,
        refl,
        IsChain-moved db.groups t g p p m.path m.apart above,
      ),
    ) in
    (
      (
        m.path,
        m.climbed,
        subst (λ gs. IsChain gs t false (some g) (g ∷ m.path)) (sym m.result) new,
      ),
      λ start (path, chain).
          subst (λ gs. IsRooted gs t start) (sym m.result)
            (IsRooted-moved db.groups t g p m.group start path m.path m.found new chain),
    )
