-- ===== src/Accounting/Settlement/Machine.antt =====
-- packages/domain/models.py, the states of a request, as an abstract machine: which steps there
-- are, whatever function makes them.
use quiblyx.Common.{ℕ, ◌≡◌, refl, inl, inr, Bool-cases, true, false, arith}
use quiblyx.Model.{RequestState}
use quiblyx.Accounting.Settlement.{Usage, allowed, bad_release, final_state, is_final, is_reserved}

-- A request is dispatched once, may be lost after that, is released only before it is dispatched,
-- and is completed from any state that is not final.
pub data MachineStep : RequestState → RequestState → Type 0 where
  dispatches : MachineStep RequestState.reserved RequestState.dispatched
  loses : MachineStep RequestState.dispatched RequestState.uncertain
  releases : MachineStep RequestState.reserved RequestState.released
  completes : (s : RequestState) → is_final s ≡ false → MachineStep s RequestState.completed

-- Any number of steps.
pub data Reaches : RequestState → RequestState → Type 0 where
  stays : (s : RequestState) → Reaches s s
  steps : (s u v : RequestState) → MachineStep s u → Reaches u v → Reaches s v

pub Reaches-trans : (s u v : RequestState) → Reaches s u → Reaches u v → Reaches s v
Reaches-trans s _ v (Reaches.stays _) k = k
Reaches-trans s u v (Reaches.steps _ m _ step h) k =
    Reaches.steps s m v step (Reaches-trans m u v h k)

pub allowed-Reaches : (a b : RequestState) → allowed a b ≡ true → Reaches a b
allowed-Reaches RequestState.reserved RequestState.dispatched h =
    Reaches.steps _ _ _ MachineStep.dispatches (Reaches.stays _)
allowed-Reaches RequestState.dispatched RequestState.uncertain h =
    Reaches.steps _ _ _ MachineStep.loses (Reaches.stays _)
allowed-Reaches a b h = absurd (ground arith)

-- A settlement that may release does so from the reserved state only.
pub finished-Reaches :
    (u : Usage) (s : RequestState) (cost : ℕ)
    → is_final s ≡ false
    → bad_release u s cost ≡ false
    → Reaches s (final_state u.pre_dispatch)
finished-Reaches u s cost pending releasable = elim (Bool-cases u.pre_dispatch) [
  | inr sent ↦ rw sent (Reaches.steps _ _ _ (MachineStep.completes s pending) (Reaches.stays _))
  | inl unsent ↦
      let waiting : s ≡ RequestState.reserved = only_reserved s (ground arith) in
      rw (unsent, waiting) (Reaches.steps _ _ _ MachineStep.releases (Reaches.stays _))
]
  where
    only_reserved : (s : RequestState) → is_reserved s ≡ true → s ≡ RequestState.reserved
    only_reserved RequestState.reserved h = refl
    only_reserved RequestState.dispatched h = cc
    only_reserved RequestState.uncertain h = cc
    only_reserved RequestState.completed h = cc
    only_reserved RequestState.released h = cc
