-- ===== src/Gateway/Chats/Releases/Steps.antt =====
-- services/gateway/main.py: a step of a spend contract that was admitted and not sent can be
-- released.
use quiblyx.Common.{
  ℕ, ◌≡◌, refl, ◌∙◌, ap, some, Option, arith, ◌==◌, ==_iff, ==_refl, &&_true, scalar-update,
  scalar_hit, String,
}
use quiblyx.Model.{Db, Response}
use quiblyx.Chat.{Payload}
use quiblyx.Accounting.Clock.{Clock}
use quiblyx.Accounting.Closing.{allocation_at}
use quiblyx.Accounting.Contracts.{
  Claims, Step, allocate, allocated, contract_at, is_contract, step_allocation, step_request,
}
use quiblyx.Accounting.Contracts.Cases.{IsAllocated}
use quiblyx.Gateway.Chats.Releases.{CanRelease, found_first, settle_contract_request-releases}

module _ (digest : Payload → String) (clock : Clock) (uid : ℕ) (claims : Claims) (idem : String)
    (p : Payload) (st : Step) where
  -- A request that `admit_contract` has just added can be released.
  pub IsAllocated-CanRelease :
      (x : ℕ × Option Response × ℕ) (db db' : Db)
      → IsAllocated digest clock uid claims idem p st x db db'
      → CanRelease claims.tenant_id uid db'
  unfolding allocate
  IsAllocated-CanRelease x db db' made =
      let c = made.contract in
      let t = claims.tenant_id in
      let same : c.id ≡ claims.sub =
        (==_iff c.id claims.sub).0
          (&&_true (c.tenant_id == t) _
            (scalar_hit (is_contract t claims.sub) db.contracts c made.found)).1 in
      let found : contract_at db t c.id ≡ some c = ap (contract_at db t) same ∙ made.found in
      let kept : contract_at db' t c.id ≡ some (allocated st c) =
        ap (λ d. contract_at d t c.id) made.result
        ∙ scalar-update (is_contract t c.id) (is_contract t c.id) (allocated st) db.contracts
            (λ x. refl)
        ∙ ground (arith, found, scalar_hit (is_contract t c.id) db.contracts c found) in
      settle_contract_request-releases t uid (step_request digest clock uid claims idem p st c)
        (step_allocation digest clock uid claims idem p st c) (allocated st c) db'
        (found_first t uid _ db db' refl refl (ap (λ d. d.requests) made.result)) refl kept
        (ap (λ d. allocation_at d t uid) made.result ∙ rw (==_refl t, ==_refl uid) refl)
        (omega arith) (omega arith)
