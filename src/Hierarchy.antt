-- ===== src/Hierarchy.antt =====
-- packages/domain/security.py, `ancestry`: the path from a group to its root.

pub mod Chain
use quiblyx.Common.{
  ℕ, zero, suc, Bool, ◌&&◌, Option, none, some, List, [], ◌∷◌, ◌++◌, ◌==◌, contains, scalar, Result,
  ok, err, http, ◌>>=◌, ◌>>◌, raise_if, or_raise,
}
use quiblyx.Model.{Db, Group}

abbrev pub group_at : List Group → ℕ → ℕ → Option Group
group_at groups tenant group_id = scalar (λ g. (g.id == group_id) && (g.tenant_id == tenant)) groups

module _ (groups : List Group) (tenant : ℕ) (check_pause : Bool) where
  -- The loop. `room` is 64 less the length of `path`, so it is 0 when `len(path) >= 64`.
  unfoldable pub climb : ℕ → List ℕ → Option ℕ → Result (List ℕ)
  climb room path none = ok path
  climb zero path (some group_id) = err (http 409 "invalid_hierarchy")
  climb (suc room) path (some group_id) = do
    raise_if (contains group_id path) (http 409 "invalid_hierarchy")
    group ← or_raise (group_at groups tenant group_id) (http 404 "group_not_found")
    raise_if (check_pause && group.paused) (http 403 "scope_paused")
    climb room (path ++ group.id ∷ []) group.parent_id

abbrev pub max_depth : ℕ
max_depth = 64

unfoldable pub ancestry : Db → ℕ → Option ℕ → Bool → Result (List ℕ)
ancestry db tenant group_id check_pause = climb db.groups tenant check_pause max_depth [] group_id
