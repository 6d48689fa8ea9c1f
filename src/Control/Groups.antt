-- ===== src/Control/Groups.antt =====
-- services/control_api/main.py: `create_group` and `move_group`.
pub mod Moves
pub mod Depth
use quiblyx.Common.{
  ℕ, Bool, true, false, ◌&&◌, Option, none, some, List, [], ◌∷◌, String, ◌==◌, contains, update,
  Result, ok, err, http, ◌>>=◌, ◌>>◌, raise_if, or_raise,
}
use quiblyx.Model.{Db, Group}
use quiblyx.Hierarchy.{group_at, ancestry}
use quiblyx.Security.{authorize}
use quiblyx.Control.Common.{audit, authorized}

unfoldable pub create_group_body :
    (uid tenant : ℕ) (name : String) (parent_id : Option ℕ) (subject : String)
    → Db
    → Result (ℕ × Db)
create_group_body uid tenant name parent_id subject db = do
  path ← ancestry db tenant parent_id true
  ok (
    uid,
    audit tenant subject "group.created" uid (record db {
      groups =
          record {
            id = uid;
            tenant_id = tenant;
            name = name;
            parent_id = parent_id;
            paused = false;
          }
          ∷ db.groups;
    }),
  )

unfoldable pub create_group :
    (uid tenant : ℕ) (name : String) (parent_id : Option ℕ) (subject : String) → Db → Result ℕ × Db
unfolding create_group_body
create_group uid tenant name parent_id subject db =
    authorized (authorize db tenant subject true parent_id none)
      (λ _. create_group_body uid tenant name parent_id subject) db

abbrev pub reparent : ℕ → ℕ → Option ℕ → List Group → List Group
reparent tenant group_id parent_id =
    update (λ g. (g.tenant_id == tenant) && (g.id == group_id))
      (λ g. record g { parent_id = parent_id })

unfoldable pub move_group_body :
    (tenant group_id : ℕ) (parent_id : Option ℕ) (subject : String) → Db → Result (ℕ × Db)
move_group_body tenant group_id parent_id subject db = do
  group ← or_raise (group_at db.groups tenant group_id) (http 404 "resource_not_found")
  path ← ancestry db tenant parent_id false
  raise_if (contains group_id path) (http 409 "hierarchy_cycle")
  ok (
    group.id,
    audit tenant subject "group.moved" group.id
        (record db { groups = reparent tenant group_id parent_id db.groups }),
  )

-- Only a member without a scope passes the check, since no scope is given.
unfoldable pub move_group :
    (tenant group_id : ℕ) (parent_id : Option ℕ) (subject : String) → Db → Result ℕ × Db
unfolding move_group_body
move_group tenant group_id parent_id subject db =
    authorized (authorize db tenant subject true none none)
      (λ _. move_group_body tenant group_id parent_id subject) db
