-- ===== src/Control/Members/Owners.antt =====
-- `assign_membership` of services/control_api/main.py: a tenant keeps an owner, and privileges come
-- from owners alone.
use quiblyx.Common.{
  ℕ, ◌≡◌, ◌≤◌, refl, ◌∙◌, ap, ◌⊎◌, inl, inr, Bool, true, false, not, ◌&&◌, Bool-cases, none, some,
  Option-cases, List, ◌∷◌, arith, String, ◌==◌, ==_iff, if◌then◌else◌, contains, All, All-map,
  All-update, scalar_hit, select, select-update, select-update_key, found_row, length, map,
  Distinct, Distinct-update, ok, Result-cases,
}
use quiblyx.Model.{Db, Membership, RoleName, Permission}
use quiblyx.Hierarchy.{ancestry}
use quiblyx.Security.{authorize, member_at}
use quiblyx.Control.Common.{authorized-keeps}
use quiblyx.Control.Members.{
  MembershipInput, assign_membership, assign_membership_body, write_member, check_delegation,
  check_owners, check_role, is_owner, owners, reassign, new_member,
}

-- The rows of the memberships after a successful assignment, and what was checked before.
pub record IsAssigned (uid t : ℕ) (input : MembershipInput) (actor : RoleName) (db db' : Db)
    : Type 0 where
  pub delegated : check_delegation actor input ≡ ok tt
  pub rows : List Membership
  pub result : db'.memberships ≡ rows
  pub changed :
      ((member_at db t input.subject ≡ none) × (rows ≡ new_member uid t input ∷ db.memberships))
      ⊎ ((row : Membership) × (member_at db t input.subject ≡ some row)
          × (check_owners db t actor row.role input.role ≡ ok tt)
          × (rows ≡ reassign row.id input db.memberships))

pub assign_membership_body-IsAssigned :
    (uid t : ℕ) (input : MembershipInput) (subject : String) (actor : RoleName) (n : ℕ)
    (db db' : Db)
    → assign_membership_body uid t input subject actor db ≡ ok (n, db')
    → IsAssigned uid t input actor db db'
unfolding assign_membership_body write_member
assign_membership_body-IsAssigned uid t input subject actor n db db' e =
    elim (Result-cases (ancestry db t input.scope_id false)) [
      | inl (_, failed) ↦ absurd (ground arith)
      | inr (path, climbed) ↦ elim (Result-cases (check_role db t input.role)) [
        | inl (_, failed) ↦ absurd (ground arith)
        | inr (_, known) ↦ elim (Result-cases (check_delegation actor input)) [
          | inl (_, failed) ↦ absurd (ground arith)
          | inr (_, delegated) ↦ elim (Option-cases (member_at db t input.subject)) [
            | inl unseen ↦ record {
              delegated = delegated;
              rows = new_member uid t input ∷ db.memberships;
              result = ground arith;
              changed = inl (unseen, refl);
            }
            | inr (row, found) ↦ elim (Result-cases (check_owners db t actor row.role input.role)) [
              | inl (_, failed) ↦ absurd (ground arith)
              | inr (_, kept) ↦ record {
                delegated = delegated;
                rows = reassign row.id input db.memberships;
                result = ground arith;
                changed = inr (row, found, kept, refl);
              }
            ]
          ]
        ]
      ]
    ]

-- A tenant whose owners are members without a scope, and which has one.
pub record IsGoverned (t : ℕ) (db : Db) : Type 0 where
  pub distinct : Distinct (map (λ m. m.id) db.memberships)
  pub rooted : All (λ m. is_owner m.role ≡ true → m.scope_id ≡ none) db.memberships
  pub owned : 1 ≤ length (owners db t)

-- The identifier is not that of a member.
abbrev pub IsNewMember : ℕ → Db → Type 0
IsNewMember uid db = contains uid (map (λ m. m.id) db.memberships) ≡ false

module _ (t : ℕ) (uid t' : ℕ) (input : MembershipInput) (actor : RoleName) (db : Db) where
  abbrev owns : Membership → Bool
  owns m = (m.tenant_id == t) && is_owner m.role

  abbrev becomes : Membership → Membership
  becomes m = record m { role = input.role; scope_id = input.scope_id }

  rooted-input :
      check_delegation actor input ≡ ok tt → is_owner input.role ≡ true → input.scope_id ≡ none
  unfolding check_delegation
  rooted-input e h = elim (Option-cases input.scope_id) [
    | inl root ↦ root
    | inr (scope, given) ↦ absurd (ground arith)
  ]

  -- The row that changes is no owner of the tenant, stays an owner, or leaves another owner.
  reassign-owners :
      (row : Membership)
      → Distinct (map (λ m. m.id) db.memberships)
      → member_at db t' input.subject ≡ some row
      → check_owners db t' actor row.role input.role ≡ ok tt
      → 1 ≤ length (owners db t)
      → 1 ≤ length (select owns (reassign row.id input db.memberships))
  unfolding check_owners
  reassign-owners row d found kept owned =
      elim (Bool-cases (owns row && not (is_owner input.role))) [
        | inl loses ↦ ground (
          arith,
          select-update_key (λ m. m.id) owns becomes row.id db.memberships d,
          scalar_hit _ db.memberships row found,
        )
        | inr keeps ↦ ground (
          arith,
          select-update owns (λ m. m.id == row.id) becomes db.memberships
              (All-map _ _ db.memberships (λ m only. stays row m (ground arith) only)
                (found_row (λ m. m.id) _ db.memberships row d found)),
        )
      ]
    where
      stays :
          (row m : Membership)
          → (owns row && not (is_owner input.role)) ≡ false
          → (m.id ≡ row.id → m ≡ row)
          → owns m ≡ true
          → owns (if m.id == row.id then becomes m else m) ≡ true
      stays row m keeps only h = elim (Bool-cases (m.id == row.id)) [
        | inl hit ↦ ground (arith, ap owns (only ((==_iff m.id row.id).0 hit)))
        | inr miss ↦ ground arith
      ]

  IsAssigned-IsGoverned :
      (db' : Db)
      → IsNewMember uid db
      → IsGoverned t db
      → IsAssigned uid t' input actor db db'
      → IsGoverned t db'
  IsAssigned-IsGoverned db' new g a = elim a.changed [
    | inl (unseen, added) ↦
        let rows : db'.memberships ≡ new_member uid t' input ∷ db.memberships = a.result ∙ added in
        record {
          distinct = rw rows (new, g.distinct);
          rooted = rw rows (rooted-input a.delegated, g.rooted);
          owned = let few = g.owned in ground (arith, ap (λ ms. length (select owns ms)) rows);
        }
    | inr (row, found, kept, set) ↦
        let rows : db'.memberships ≡ reassign row.id input db.memberships = a.result ∙ set in
        record {
          distinct =
              rw rows (Distinct-update (λ m. m.id) _ becomes db.memberships (λ m. refl) g.distinct);
          rooted = rw rows (
              All-update _ _ (λ m. m.id == row.id) becomes db.memberships
                (λ m root. elim (Bool-cases (m.id == row.id)) [
                  | inl hit ↦ rw hit (rooted-input a.delegated)
                  | inr miss ↦ rw miss root
                ])
                g.rooted);
          owned =
              let few = reassign-owners row g.distinct found kept g.owned in
              ground (arith, ap (λ ms. length (select owns ms)) rows);
        }
  ]

-- Whoever assigns whatever membership in whatever tenant, a tenant that has an owner keeps one, and
-- owners remain members without a scope. Members must have distinct identifiers, and that of a new
-- member must not be in use.
pub assign_membership-IsGoverned :
    (t uid t' : ℕ) (input : MembershipInput) (subject : String) (db : Db)
    → IsNewMember uid db
    → IsGoverned t db
    → IsGoverned t (assign_membership uid t' input subject db).1
unfolding assign_membership
assign_membership-IsGoverned t uid t' input subject db new g =
    authorized-keeps (IsGoverned t)
      (authorize db t' subject false input.scope_id (some Permission.members_manage))
      (assign_membership_body uid t' input subject) db g
      λ actor n db' permitted done.
        IsAssigned-IsGoverned t uid t' input actor db db' new g
          (assign_membership_body-IsAssigned uid t' input subject actor n db db' done)
