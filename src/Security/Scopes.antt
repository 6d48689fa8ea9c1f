-- ===== src/Security/Scopes.antt =====
-- `authorize` of packages/domain/security.py: a member acts within the member's scope.
use quiblyx.Common.{
  ℕ, ◌≡◌, refl, sym, ◌∙◌, ap, inl, inr, Bool, true, false, Option, none, some, Option-cases, List,
  arith, String, contains, ok, Result-cases,
}
use quiblyx.Model.{Db, Membership, RoleName, Permission}
use quiblyx.Hierarchy.{ancestry}
use quiblyx.Hierarchy.Chain.{IsChain, ancestry-iff-IsChain}
use quiblyx.Security.{authorize, check_scope, grants, member_at, needed, permissions_of}

-- The scope of an action lies below the limit: the limit is on the scope's chain of parents.
abbrev pub IsWithin : Db → ℕ → ℕ → Option ℕ → Type 0
IsWithin db t limit scope =
    (g : ℕ) × (scope ≡ some g)
    × ((path : List ℕ) × IsChain db.groups t false (some g) path × (contains limit path ≡ true))

-- What an authorized action rests on.
pub record IsPermitted (db : Db) (t : ℕ) (subject : String) (write : Bool) (scope : Option ℕ)
    (p : Option Permission) (role : RoleName) : Type 0 where
  pub member : Membership
  pub found : member_at db t subject ≡ some member
  pub same_role : member.role ≡ role
  pub granted : grants (permissions_of db t member.role) (needed write p) ≡ true
  pub within : (limit : ℕ) → member.scope_id ≡ some limit → IsWithin db t limit scope

check_scope-IsWithin :
    (db : Db) (t limit : ℕ) (scope : Option ℕ)
    → check_scope db t (some limit) scope ≡ ok tt
    → IsWithin db t limit scope
unfolding check_scope
check_scope-IsWithin db t limit none e = absurd (ground arith)
check_scope-IsWithin db t limit (some g) e = elim (Result-cases (ancestry db t (some g) false)) [
  | inl (_, failed) ↦ absurd (ground arith)
  | inr (path, climbed) ↦
      (g, refl, (path, ((ancestry-iff-IsChain db t (some g) false path).0 climbed).0, ground arith))
]

-- An action is authorized only for a member whose template or custom role grants the permission.
-- A member with a scope acts only at groups of the tenant below it: the scope is on the chain of
-- parents of the group that is acted on, and an action at no group is refused.
pub authorize-IsPermitted :
    (db : Db) (t : ℕ) (subject : String) (write : Bool) (scope : Option ℕ) (p : Option Permission)
    (role : RoleName)
    → authorize db t subject write scope p ≡ ok role
    → IsPermitted db t subject write scope p role
unfolding authorize
authorize-IsPermitted db t subject write scope p role e =
    elim (Option-cases (member_at db t subject)) [
      | inl missing ↦ absurd (ground arith)
      | inr (m, found) ↦ elim (Result-cases (check_scope db t m.scope_id scope)) [
        | inl (_, failed) ↦ absurd (ground arith)
        | inr (tt, inside) ↦ record {
          member = m;
          found = found;
          same_role = ground arith;
          granted = ground arith;
          within = λ limit has.
              check_scope-IsWithin db t limit scope
                (ap (λ s. check_scope db t s scope) (sym has) ∙ inside);
        }
      ]
    ]
