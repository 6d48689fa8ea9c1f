-- ===== src/Examples/Groups.antt =====
-- Groups at the example organisation.
use quiblyx.Common.{
  ℕ, ◌≡◌, refl, false, none, some, Option, List, [], ◌∷◌, ok, err, http, true, length, Result, ◌↔◌,
  ◌≤◌, ◌<◌,
}
use quiblyx.Model.{Db, RoleName}
use quiblyx.Hierarchy.{ancestry, climb}
use quiblyx.Hierarchy.Chain.{IsChain, AvoidsSeen, ancestry-iff-IsChain}
use quiblyx.Security.{authorize, check_scope}
use quiblyx.Control.Groups.{move_group}
use quiblyx.Control.Groups.{create_group}
use quiblyx.Control.Groups.Depth.{create_group-IsChain}
use quiblyx.Control.Groups.Moves.{IsRooted, move_group-IsRooted}
use quiblyx.Examples.{start}

-- The team becomes a root of its own.
abbrev moved : Db
moved = (move_group 1 11 none "ada" start).1

move_runs : move_group 1 11 none "ada" start ≡ (ok 11, moved)
unfolding move_group authorize check_scope ancestry climb
move_runs = refl

move_group-IsRooted_example :
    ((path : List ℕ) × (◌≡◌ {A = Result (List ℕ)} (ancestry start 1 none false) (ok path))
      × IsChain moved.groups 1 false (some 11) (11 ∷ path))
    × ((g : Option ℕ) → IsRooted start.groups 1 g → IsRooted moved.groups 1 g)
move_group-IsRooted_example = move_group-IsRooted 1 11 none "ada" 11 start moved move_runs

abbrev team_path : List ℕ
team_path = 11 ∷ 10 ∷ []

ancestry-iff-IsChain_example : (ancestry start 1 (some 11) true ≡ ok team_path) ↔ (
    IsChain start.groups 1 true (some 11) team_path
    × AvoidsSeen [] team_path
    × (length team_path ≤ 64))
ancestry-iff-IsChain_example = ancestry-iff-IsChain start 1 (some 11) true team_path

-- The team cannot move below itself.
move_refused : (move_group 1 10 (some 11) "ada" start).0 ≡ err (http 409 "hierarchy_cycle")
unfolding move_group authorize check_scope ancestry climb
move_refused = refl

-- A group below the team.
ada_creates : authorize start 1 "ada" true (some 11) none ≡ ok RoleName.owner
unfolding authorize check_scope ancestry climb
ada_creates = refl

team_climbed : ancestry start 1 (some 11) true ≡ ok team_path
unfolding ancestry climb
team_climbed = refl

create_group-IsChain_example :
    ((create_group 12 1 "lab" (some 11) "ada" start).0 ≡ ok 12)
    × IsChain
        (create_group 12 1 "lab" (some 11) "ada" start).1.groups
        1
        true
        (some 12)
        (12 ∷ team_path)
    × ((ancestry (create_group 12 1 "lab" (some 11) "ada" start).1 1 (some 12) true
          ≡ ok (12 ∷ team_path))
        ↔ (length team_path < 64))
create_group-IsChain_example =
    create_group-IsChain 12 1 "lab" (some 11) "ada" RoleName.owner team_path start refl ada_creates
      team_climbed
