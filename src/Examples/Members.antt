-- ===== src/Examples/Members.antt =====
-- Memberships at the example organisation.
use quiblyx.Common.{true, ◌≡◌, refl, none, some, ok, err, http, arith, false, ◌∷◌}
use quiblyx.Model.{Db, RoleName, Permission}
use quiblyx.Hierarchy.{ancestry, climb}
use quiblyx.Security.{authorize, check_scope}
use quiblyx.Security.Scopes.{IsPermitted, authorize-IsPermitted}
use quiblyx.Control.Members.{MembershipInput, assign_membership, check_owners}
use quiblyx.Control.Members.Owners.{IsGoverned, assign_membership-IsGoverned}
use quiblyx.Control.Members.Privileges.{IsUnprivileged, assign_membership-IsUnprivileged}
use quiblyx.Examples.{start}

-- An administrator and a manager beside the owner.
abbrev staffed : Db
staffed = record start {
  memberships =
      record { id = 51; tenant_id = 1; subject = "bob"; role = RoleName.admin; scope_id = none }
      ∷ record {
        id = 52;
        tenant_id = 1;
        subject = "cy";
        role = RoleName.manager;
        scope_id = some 11;
      }
      ∷ start.memberships;
}

abbrev demotion : MembershipInput
demotion = record { subject = "ada"; role = RoleName.member; scope_id = none }

abbrev promotion : MembershipInput
promotion = record { subject = "cy"; role = RoleName.owner; scope_id = none }

-- The last owner cannot step down.
demotion_refused :
    (assign_membership 60 1 demotion "ada" staffed).0 ≡ err (http 409 "last_owner_protected")
unfolding assign_membership authorize check_scope ancestry climb check_owners
demotion_refused = refl

promotion_refused :
    (assign_membership 60 1 promotion "bob" staffed).0 ≡ err (http 403 "cannot_delegate_privilege")
unfolding assign_membership authorize check_scope ancestry climb check_owners
promotion_refused = refl

promotion_done : (assign_membership 60 1 promotion "ada" staffed).0 ≡ ok 52
unfolding assign_membership authorize check_scope ancestry climb check_owners
promotion_done = refl

bob_permitted :
    authorize staffed 1 "bob" false none (some Permission.members_manage) ≡ ok RoleName.admin
unfolding authorize check_scope
bob_permitted = refl

staffed-IsGoverned : IsGoverned 1 staffed
staffed-IsGoverned = record {
  distinct = (refl, (refl, (refl, tt)));
  rooted = (λ e. refl, (λ e. absurd (cc e), (λ e. refl, tt)));
  owned = omega arith;
}

assign_membership-IsGoverned_example :
    IsGoverned 1 (assign_membership 60 1 promotion "ada" staffed).1
assign_membership-IsGoverned_example =
    assign_membership-IsGoverned 1 60 1 promotion "ada" staffed refl staffed-IsGoverned

assign_membership-IsUnprivileged_example :
    IsUnprivileged staffed (assign_membership 60 1 demotion "bob" staffed).1
assign_membership-IsUnprivileged_example =
    assign_membership-IsUnprivileged 60 1 demotion "bob" RoleName.admin staffed
      (refl, (refl, (refl, tt))) bob_permitted refl

-- A manager of the team acts at the team, and not at the unit above it.
cy_permitted : authorize staffed 1 "cy" true (some 11) none ≡ ok RoleName.manager
unfolding authorize check_scope ancestry climb
cy_permitted = refl

cy_refused : authorize staffed 1 "cy" true (some 10) none ≡ err (http 403 "permission_denied")
unfolding authorize check_scope ancestry climb
cy_refused = refl

authorize-IsPermitted_example : IsPermitted staffed 1 "cy" true (some 11) none RoleName.manager
authorize-IsPermitted_example =
    authorize-IsPermitted staffed 1 "cy" true (some 11) none RoleName.manager cy_permitted
