-- ===== src/Hierarchy/Chain.antt =====
-- `ancestry` (packages/domain/security.py) against its specification: the chain of parents.
use quiblyx.Common.{
  ℕ, zero, suc, ◌≤◌, ◌≡◌, sym, ◌∙◌, ap, inl, inr, ◌↔◌, Bool, false, ◌&&◌, &&_true, ==_iff, Option,
  none, some, Option-cases, List, [], ◌∷◌, ◌++◌, arith, ◌==◌, contains, length, scalar_hit, ok,
}
use mathlib.Core.List.{append-nil, append_assoc}
use quiblyx.Model.{Db, Group}
use quiblyx.Hierarchy.{group_at, climb, ancestry, max_depth}

-- No identifier of `path` is among `seen` or stands before itself.
abbrev pub AvoidsSeen : List ℕ → List ℕ → Type 0
AvoidsSeen seen [] = Unit
AvoidsSeen seen (x ∷ path) = (contains x seen ≡ false) × AvoidsSeen (seen ++ x ∷ []) path

module _ (groups : List Group) (tenant : ℕ) (check_pause : Bool) where
  -- `path` lists a group of the tenant, its parent, and so on up to a root; none of them is paused
  -- if pauses are checked.
  abbrev pub IsChain : Option ℕ → List ℕ → Type 0
  IsChain none [] = Unit
  IsChain none (x ∷ path) = ⊥
  IsChain (some i) [] = ⊥
  IsChain (some i) (x ∷ path) =
      (x ≡ i)
      × ((g : Group) × (group_at groups tenant i ≡ some g)
          × ((check_pause && g.paused) ≡ false)
          × IsChain g.parent_id path)

  -- One round of the loop that goes on.
  record IsRung (room : ℕ) (seen : List ℕ) (i : ℕ) (out : List ℕ) : Type 0 where
    group : Group
    found : group_at groups tenant i ≡ some group
    unseen : contains i seen ≡ false
    running : (check_pause && group.paused) ≡ false
    rest : climb groups tenant check_pause room (seen ++ group.id ∷ []) group.parent_id ≡ ok out

  climb-IsRung :
      (room : ℕ) (seen : List ℕ) (i : ℕ) (out : List ℕ)
      → climb groups tenant check_pause (suc room) seen (some i) ≡ ok out
      → IsRung room seen i out
  unfolding climb
  climb-IsRung room seen i out e = elim (Option-cases (group_at groups tenant i)) [
    | inl missing ↦ absurd (ground arith)
    | inr (g, found) ↦ record {
      group = g;
      found = found;
      unseen = ground arith;
      running = ground arith;
      rest = ground arith;
    }
  ]

  -- A group that is found has the identifier that was asked for.
  pub group_at-id : (i : ℕ) (g : Group) → group_at groups tenant i ≡ some g → g.id ≡ i
  group_at-id i g found =
      (==_iff g.id i).0 (&&_true _ (g.tenant_id == tenant) (scalar_hit _ groups g found)).0

  climb_root :
      (room : ℕ) (seen out : List ℕ)
      → climb groups tenant check_pause room seen none ≡ ok out
      → seen ≡ out
  unfolding climb
  climb_root room seen out e = cc

  no_room :
      (seen out : List ℕ) (i : ℕ) → climb groups tenant check_pause zero seen (some i) ≡ ok out → ⊥
  unfolding climb
  no_room seen out i e = cc

  climb-IsChain :
      (room : ℕ) (seen : List ℕ) (start : Option ℕ) (out : List ℕ)
      → climb groups tenant check_pause room seen start ≡ ok out
      → (path : List ℕ) × (out ≡ seen ++ path)
        × IsChain start path
        × AvoidsSeen seen path
        × (length path ≤ room)
  climb-IsChain room seen none out e =
      ([], sym (climb_root room seen out e) ∙ sym (append-nil seen), tt, tt, omega arith)
  climb-IsChain zero seen (some i) out e = absurd (no_room seen out i e)
  climb-IsChain (suc room) seen (some i) out e =
      let rung = climb-IsRung room seen i out e in
      let g = rung.group in
      let (path, whole, chain, avoids, fits) =
        climb-IsChain room (seen ++ g.id ∷ []) g.parent_id out rung.rest in
      let same = group_at-id i g rung.found in
      (
        g.id ∷ path,
        whole ∙ append_assoc seen (g.id ∷ []) path,
        (same, (g, rung.found, rung.running, chain)),
        (rw same rung.unseen, avoids),
        omega arith,
      )

  climb_of_chain :
      (room : ℕ) (seen : List ℕ) (start : Option ℕ) (path : List ℕ)
      → IsChain start path
      → AvoidsSeen seen path
      → length path ≤ room
      → climb groups tenant check_pause room seen start ≡ ok (seen ++ path)
  unfolding climb
  climb_of_chain room seen none [] c a fits = ap ok (sym (append-nil seen))
  climb_of_chain room seen none (x ∷ path) c a fits = absurd c
  climb_of_chain room seen (some i) [] c a fits = absurd c
  climb_of_chain zero seen (some i) (x ∷ path) c a fits = absurd (omega arith)
  climb_of_chain (suc room) seen (some i) (x ∷ path) c a fits =
      let (same, (g, found, running, rest)) = c in
      let ih = climb_of_chain room (seen ++ x ∷ []) g.parent_id path rest a.1 (omega arith) in
      ground (
        arith,
        ih,
        found,
        running,
        a.0,
        group_at-id i g found,
        same,
        append_assoc seen (x ∷ []) path,
      )

-- `ancestry` succeeds exactly with the chain of parents of the group: a path of at most 64 groups
-- of the tenant without repetition, from the group to a root, with no paused group if pauses are
-- checked.
pub ancestry-iff-IsChain :
    (db : Db) (tenant : ℕ) (start : Option ℕ) (check_pause : Bool) (path : List ℕ)
    → (ancestry db tenant start check_pause ≡ ok path)
      ↔ (IsChain db.groups tenant check_pause start path × AvoidsSeen [] path × (length path ≤ 64))
unfolding ancestry
ancestry-iff-IsChain db t start check path = (
  λ e.
      let (p, whole, chain, avoids, fits) =
        climb-IsChain db.groups t check max_depth [] start path e in
      rw whole (chain, avoids, fits),
  λ (chain, avoids, fits).
      climb_of_chain db.groups t check max_depth [] start path chain avoids fits,
)
