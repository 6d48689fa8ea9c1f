-- ===== src/Control/Groups/Depth.antt =====
-- `create_group` of services/control_api/main.py: where a new group stands.
use quiblyx.Common.{
  ℕ, ◌≡◌, ◌≢◌, ◌<◌, ◌↔◌, refl, sym, ◌∙◌, ap, subst, inl, inr, Bool, true, false, ◌&&◌, Option, none,
  some, List, [], ◌∷◌, ◌++◌, arith, String, ◌==◌, contains, scalar-contains, map, length, ok,
  Result, Result-cases,
}
use quiblyx.Model.{Db, Group, RoleName, transaction}
use quiblyx.Hierarchy.{group_at, ancestry}
use quiblyx.Hierarchy.Chain.{IsChain, AvoidsSeen, ancestry-iff-IsChain, group_at-id}
use quiblyx.Security.{authorize}
use quiblyx.Control.Common.{authorized-eq-ok}
use quiblyx.Control.Groups.{create_group, create_group_body}

module _ (groups : List Group) (t : ℕ) (check : Bool) (new : Group)
    (fresh : contains new.id (map (λ g. g.id) groups) ≡ false) where
  -- A group that is found is not the new one.
  group_at-old : (i : ℕ) (g : Group) → group_at groups t i ≡ some g → i ≢ new.id
  group_at-old i g found e = ground (
    arith,
    group_at-id groups t check i g found,
    scalar-contains (λ g. g.id) (λ x. (x.id == i) && (x.tenant_id == t)) groups g found,
    ap (λ n. contains n (map (λ g. g.id) groups)) (group_at-id groups t check i g found ∙ e),
  )

  IsChain-added :
      (start : Option ℕ) (path : List ℕ)
      → IsChain groups t check start path
      → IsChain (new ∷ groups) t check start path × (contains new.id path ≡ false)
  IsChain-added none [] c = (tt, refl)
  IsChain-added none (x ∷ path) c = absurd c
  IsChain-added (some i) [] c = absurd c
  IsChain-added (some i) (x ∷ path) c =
      let (same, (g, found, running, rest)) = c in
      let ne = group_at-old i g found in
      let above = IsChain-added g.parent_id path rest in
      ((same, (g, older i g ne found, running, above.0)), (let apart = above.1 in ground arith))
    where
      older :
          (i : ℕ) (g : Group)
          → i ≢ new.id
          → group_at groups t i ≡ some g
          → group_at (new ∷ groups) t i ≡ some g
      older i g ne found = ground arith

AvoidsSeen-added :
    (uid : ℕ) (seen path : List ℕ)
    → contains uid path ≡ false
    → AvoidsSeen seen path
    → AvoidsSeen (uid ∷ seen) path
AvoidsSeen-added uid seen [] apart a = tt
AvoidsSeen-added uid seen (x ∷ path) apart a =
    (ground arith, AvoidsSeen-added uid (seen ++ x ∷ []) path (ground arith) a.1)

-- What a successful creation has checked and added.
record IsCreated (uid t : ℕ) (parent : Option ℕ) (n : ℕ) (db db' : Db) : Type 0 where
  group : Group
  path : List ℕ
  climbed : ancestry db t parent true ≡ ok path
  answer : n ≡ uid
  result : db'.groups ≡ group ∷ db.groups
  named :
      (group.id ≡ uid) × (group.tenant_id ≡ t) × (group.parent_id ≡ parent) × (group.paused ≡ false)

create_group_body-IsCreated :
    (uid t : ℕ) (name : String) (parent : Option ℕ) (subject : String) (n : ℕ) (db db' : Db)
    → create_group_body uid t name parent subject db ≡ ok (n, db')
    → IsCreated uid t parent n db db'
unfolding create_group_body
create_group_body-IsCreated uid t name parent subject n db db' e =
    elim (Result-cases (ancestry db t parent true)) [
      | inl (_, refused) ↦ absurd (ground arith)
      | inr (path, climbed) ↦ record {
        group = record { id = uid; tenant_id = t; name = name; parent_id = parent; paused = false };
        path = path;
        climbed = climbed;
        answer = ground arith;
        result = ground arith;
        named = (refl, refl, refl, refl);
      }
    ]

group_at-new :
    (t n : ℕ) (new : Group) (groups : List Group)
    → new.id ≡ n
    → new.tenant_id ≡ t
    → group_at (new ∷ groups) t n ≡ some new
group_at-new t n new groups a b = ground arith

IsCreated-IsChain :
    (uid t : ℕ) (parent : Option ℕ) (n : ℕ) (db db' : Db) (c : IsCreated uid t parent n db db')
    → IsChain (c.group ∷ db.groups) t true parent c.path
    → IsChain db'.groups t true (some n) (n ∷ c.path)
IsCreated-IsChain uid t parent n db db' c above =
    let named = c.named in
    subst (λ gs. IsChain gs t true (some n) (n ∷ c.path)) (sym c.result)
      (
        refl,
        (
          c.group,
          group_at-new t n c.group db.groups (named.0 ∙ sym c.answer) named.1,
          named.3,
          subst (λ s. IsChain (c.group ∷ db.groups) t true s c.path) (sym named.2) above,
        ),
      )

ok-injective : (a b : List ℕ) → ◌≡◌ {A = Result (List ℕ)} (ok a) (ok b) → a ≡ b
ok-injective a b e = ground arith

created-IsChain :
    (uid t : ℕ) (name : String) (parent : Option ℕ) (subject : String) (n : ℕ) (db db' : Db)
    → contains uid (map (λ g. g.id) db.groups) ≡ false
    → create_group uid t name parent subject db ≡ (ok n, db')
    → (path : List ℕ) × (ancestry db t parent true ≡ ok path)
      × IsChain db'.groups t true (some n) (n ∷ path)
      × ((ancestry db' t (some n) true ≡ ok (n ∷ path)) ↔ (length path < 64))
unfolding create_group
created-IsChain uid t name parent subject n db db' fresh e =
    let (role, permitted, done) =
      authorized-eq-ok (authorize db t subject true parent none)
        (λ _. create_group_body uid t name parent subject) db n db' e in
    let c = create_group_body-IsCreated uid t name parent subject n db db' done in
    let (chain, avoids, fits) = (ancestry-iff-IsChain db t parent true c.path).0 c.climbed in
    let new = c.group in
    let named = c.named in
    let absent : contains new.id (map (λ g. g.id) db.groups) ≡ false =
      ap (λ i. contains i (map (λ g. g.id) db.groups)) named.0 ∙ fresh in
    let above = IsChain-added db.groups t true new absent parent c.path chain in
    let apart : contains n c.path ≡ false =
      ap (λ i. contains i c.path) (c.answer ∙ sym named.0) ∙ above.1 in
    let placed : IsChain db'.groups t true (some n) (n ∷ c.path) =
      IsCreated-IsChain uid t parent n db db' c above.0 in
    (
      c.path,
      c.climbed,
      placed,
      (
        λ climbed.
            omega (arith, ((ancestry-iff-IsChain db' t (some n) true (n ∷ c.path)).0 climbed).2),
        λ short.
            (ancestry-iff-IsChain db' t (some n) true (n ∷ c.path)).1
              (placed, (refl, AvoidsSeen-added n [] c.path apart avoids), omega (arith, short)),
      ),
    )

create_group-succeeds :
    (uid t : ℕ) (name : String) (parent : Option ℕ) (subject : String) (role : RoleName)
    (path : List ℕ) (db : Db)
    → authorize db t subject true parent none ≡ ok role
    → ancestry db t parent true ≡ ok path
    → (create_group uid t name parent subject db).0 ≡ ok uid
unfolding create_group create_group_body
create_group-succeeds uid t name parent subject role path db permitted climbed =
    rw (permitted, climbed, transaction) refl

-- A member who may write below the parent creates a group there whenever the parent's chain to the
-- root is free of pauses and climbable, however long it is; the group stands below its parent. In
-- the state that the creation leaves, admission can climb from it, over its identifier and then the
-- parent's chain, exactly if that chain has fewer than 64 groups. So below a chain of 64 groups the
-- creation succeeds and leaves a group that `ancestry` refuses. The identifier must not be in use.
pub create_group-IsChain :
    (uid t : ℕ) (name : String) (parent : Option ℕ) (subject : String) (role : RoleName)
    (path : List ℕ) (db : Db)
    → contains uid (map (λ g. g.id) db.groups) ≡ false
    → authorize db t subject true parent none ≡ ok role
    → ancestry db t parent true ≡ ok path
    → ((create_group uid t name parent subject db).0 ≡ ok uid)
      × IsChain (create_group uid t name parent subject db).1.groups t true (some uid) (uid ∷ path)
      × ((ancestry (create_group uid t name parent subject db).1 t (some uid) true
            ≡ ok (uid ∷ path))
          ↔ (length path < 64))
create_group-IsChain uid t name parent subject role path db fresh permitted climbed =
    let created : Db = (create_group uid t name parent subject db).1 in
    let succeeds = create_group-succeeds uid t name parent subject role path db permitted climbed in
    let (above, climbs, placed, climbable) =
      created-IsChain uid t name parent subject uid db created fresh
        (ap (λ out. (out, created)) succeeds) in
    let same : above ≡ path = ok-injective above path (sym climbs ∙ climbed) in
    let (stands, iff) =
      subst
        (λ p.
          IsChain created.groups t true (some uid) (uid ∷ p)
          × ((ancestry created t (some uid) true ≡ ok (uid ∷ p)) ↔ (length p < 64)))
        same (placed, climbable) in
    (succeeds, stands, iff)
