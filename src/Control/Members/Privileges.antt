-- ===== src/Control/Members/Privileges.antt =====
-- `assign_membership` of services/control_api/main.py: what an actor that is no owner can change.
use quiblyx.Common.{
  ℕ, ◌≡◌, refl, sym, ◌∙◌, ap, inl, inr, Bool, true, false, ◌&&◌, Bool-cases, none, some,
  Option-cases, ◌∷◌, arith, String, str_eq, str_eq_iff, &&_true, ◌==◌, ==_iff, if◌then◌else◌,
  scalar-All, scalar-update, scalar, found_row, map, Distinct, ok,
}
use mathlib.Core.Option.{some-injective}
use mathlib.Core.Option
use quiblyx.Model.{Db, Membership, RoleName, Permission}
use quiblyx.Security.{authorize, member_at}
use quiblyx.Control.Common.{authorized-keeps}
use quiblyx.Control.Members.{
  MembershipInput, assign_membership, assign_membership_body, check_delegation, check_owners,
  is_owner, is_delegable, reassign, new_member,
}
use quiblyx.Control.Members.Owners.{assign_membership_body-IsAssigned}

-- The query for a member, by tenant and subject.
abbrev is_member : ℕ → String → Membership → Bool
is_member t s m = (m.tenant_id == t) && str_eq m.subject s

-- Owners keep their rows, and a row with any role but manager, member or auditor is an old one.
pub record IsUnprivileged (db db' : Db) : Type 0 where
  pub kept :
      (t : ℕ) (s : String) (m : Membership)
      → member_at db t s ≡ some m
      → is_owner m.role ≡ true
      → member_at db' t s ≡ some m
  pub given :
      (t : ℕ) (s : String) (m : Membership)
      → member_at db' t s ≡ some m
      → is_delegable m.role ≡ false
      → member_at db t s ≡ some m

module _ (uid t' : ℕ) (input : MembershipInput) (actor : RoleName) (db db' : Db)
    (base : is_owner actor ≡ false) where
  abbrev becomes : Membership → Membership
  becomes m = record m { role = input.role; scope_id = input.scope_id }

  delegable_input : check_delegation actor input ≡ ok tt → is_delegable input.role ≡ true
  unfolding check_delegation
  delegable_input e = elim (Bool-cases (is_delegable input.role)) [
    | inl h ↦ h
    | inr h ↦ absurd (ground arith)
  ]

  no_owner :
      (row : Membership)
      → check_owners db t' actor row.role input.role ≡ ok tt
      → is_owner row.role ≡ false
  unfolding check_owners
  no_owner row e = elim (Bool-cases (is_owner row.role)) [
    | inl h ↦ absurd (ground arith)
    | inr h ↦ h
  ]

  added-IsUnprivileged :
      is_delegable input.role ≡ true
      → member_at db t' input.subject ≡ none
      → db'.memberships ≡ new_member uid t' input ∷ db.memberships
      → IsUnprivileged db db'
  added-IsUnprivileged low unseen rows = record {
    kept = λ t s m found owner. ap (scalar (is_member t s)) rows ∙ older t s m found;
    given = λ t s m found high. newer t s m (ap (scalar (is_member t s)) (sym rows) ∙ found) high;
  }
    where
      older :
          (t : ℕ) (s : String) (m : Membership)
          → member_at db t s ≡ some m
          → scalar (is_member t s) (new_member uid t' input ∷ db.memberships) ≡ some m
      older t s m found = elim (Bool-cases ((t' == t) && str_eq input.subject s)) [
        | inl hit ↦
            let (tenants, subjects) = &&_true (t' == t) (str_eq input.subject s) hit in
            absurd (
              cc (
                ap (λ x. member_at db x input.subject) ((==_iff t' t).0 tenants),
                ap (λ x. member_at db t x) ((str_eq_iff input.subject s).0 subjects),
                unseen,
                found,
              ))
        | inr miss ↦ rw miss found
      ]

      newer :
          (t : ℕ) (s : String) (m : Membership)
          → scalar (is_member t s) (new_member uid t' input ∷ db.memberships) ≡ some m
          → is_delegable m.role ≡ false
          → member_at db t s ≡ some m
      newer t s m found high = ground arith

  reassigned-IsUnprivileged :
      (row : Membership)
      → is_delegable input.role ≡ true
      → is_owner row.role ≡ false
      → Distinct (map (λ m. m.id) db.memberships)
      → member_at db t' input.subject ≡ some row
      → db'.memberships ≡ reassign row.id input db.memberships
      → IsUnprivileged db db'
  reassigned-IsUnprivileged row low base_row d found rows = record {
    kept = λ t s m seen owner.
        same t s ∙ ap (Option.map moved) seen ∙ ap some (untouched t s m seen owner);
    given = λ t s m seen high. elim (Option-cases (member_at db t s)) [
      | inl unseen ↦ absurd (ground (arith, same t s))
      | inr (m0, old) ↦
          let eq : moved m0 ≡ m =
            some-injective (moved m0) m (ap (Option.map moved) (sym old) ∙ sym (same t s) ∙ seen) in
          elim (Bool-cases (m0.id == row.id)) [
            | inl hit ↦ absurd (ground (arith, ap (λ x. is_delegable x.role) eq))
            | inr miss ↦ old ∙ ap some (unmoved m0 miss ∙ eq)
          ]
    ];
  }
    where
      moved : Membership → Membership
      moved m = if m.id == row.id then becomes m else m

      same : (t : ℕ) (s : String) → member_at db' t s ≡ Option.map moved (member_at db t s)
      same t s =
          ap (scalar (is_member t s)) rows
          ∙ scalar-update (is_member t s) (λ m. m.id == row.id) becomes db.memberships (λ m. refl)

      unmoved : (m : Membership) → (m.id == row.id) ≡ false → m ≡ moved m
      unmoved m miss = ground arith

      untouched :
          (t : ℕ) (s : String) (m : Membership)
          → member_at db t s ≡ some m
          → is_owner m.role ≡ true
          → moved m ≡ m
      untouched t s m seen owner =
          let only =
            (scalar-All _ (is_member t s) db.memberships m
              (found_row (λ m. m.id) _ db.memberships row d found) seen).0 in
          elim (Bool-cases (m.id == row.id)) [
            | inl hit ↦
                absurd
                  (ground (arith, ap (λ x. is_owner x.role) (only ((==_iff m.id row.id).0 hit))))
            | inr miss ↦ ground arith
          ]

IsUnprivileged-refl : (db : Db) → IsUnprivileged db db
IsUnprivileged-refl db = record { kept = λ t s m e h. e; given = λ t s m e h. e }

-- An actor that is no owner cannot make anyone owner, administrator or holder of a custom role,
-- and cannot change the role or the scope of an owner: owners keep their rows, and every member
-- with such a role had the same row before. Members must have distinct identifiers.
pub assign_membership-IsUnprivileged :
    (uid t' : ℕ) (input : MembershipInput) (subject : String) (actor : RoleName) (db : Db)
    → Distinct (map (λ m. m.id) db.memberships)
    → authorize db t' subject false input.scope_id (some Permission.members_manage) ≡ ok actor
    → is_owner actor ≡ false
    → IsUnprivileged db (assign_membership uid t' input subject db).1
unfolding assign_membership
assign_membership-IsUnprivileged uid t' input subject actor db d permitted base =
    authorized-keeps (IsUnprivileged db)
      (authorize db t' subject false input.scope_id (some Permission.members_manage))
      (assign_membership_body uid t' input subject) db (IsUnprivileged-refl db)
      λ role n db' permit done.
        let low : is_owner role ≡ false = ground (arith, sym permit ∙ permitted) in
        let a = assign_membership_body-IsAssigned uid t' input subject role n db db' done in
        let delegable = delegable_input uid t' input role db db' low a.delegated in
        elim a.changed [
          | inl (unseen, added) ↦
              added-IsUnprivileged uid t' input role db db' low delegable unseen (a.result ∙ added)
          | inr (row, found, kept, set) ↦
              reassigned-IsUnprivileged uid t' input role db db' low row delegable
                (no_owner uid t' input role db db' low row kept) d found (a.result ∙ set)
        ]
