-- ===== src/Accounting/Admission/Idempotency.antt =====
-- The idempotency key of `admit` (packages/domain/accounting.py).
use quiblyx.Common.{
  ℕ, ◌≡◌, ◌≢◌, refl, sym, ◌∙◌, ap, inl, inr, true, false, Option, none, some, Option-cases, arith,
  String, str_eq_iff, str_eq, scalar, ==_iff, if_intro, ◌⊎◌, All, suc, List, [], ◌∷◌, ◌==◌, ◌&&◌,
  pos, Result, ok,
}
use mathlib.Core.Option.{some-injective}
use quiblyx.Model.{Db, Budget, Key, Request, RequestState, Response, transaction}
use quiblyx.Chat.{Payload}
use quiblyx.Accounting.Clock.{Clock, month}
use quiblyx.Accounting.Budgets.{root_budget}
use quiblyx.Accounting.Admission.{
  active_key, admit, admit_body, replay, previous_request, is_completed,
}
use quiblyx.Accounting.Admission.Cases.{admit-keeps, admit-cases, IsReplay}

-- What a replay may answer: the stored response of a completed request, for the same payload.
pub record IsStored (digest : Payload → String) (previous : Request) (p : Payload)
    (x : ℕ × Option Response) : Type 0 where
  pub same_payload : previous.payload_hash ≡ digest p
  pub completed : previous.state ≡ RequestState.completed
  pub not_streamed : p.body.stream ≡ false
  pub answer : x ≡ (previous.id, previous.response)
  pub stored : previous.response ≢ none

completed_only : (s : RequestState) → is_completed s ≡ true → s ≡ RequestState.completed
completed_only RequestState.reserved e = absurd (cc e)
completed_only RequestState.dispatched e = absurd (cc e)
completed_only RequestState.uncertain e = absurd (cc e)
completed_only RequestState.completed e = refl
completed_only RequestState.released e = absurd (cc e)

replay-IsStored :
    (digest : Payload → String) (previous : Request) (p : Payload) (x : ℕ × Option Response)
    → replay digest previous p ≡ ok x
    → IsStored digest previous p x
unfolding replay
replay-IsStored digest previous p x e = elim (Option-cases previous.response) [
  | inl missing ↦ absurd (ground arith)
  | inr (response, kept) ↦ record {
    same_payload = (str_eq_iff previous.payload_hash (digest p)).0 (ground arith);
    completed = completed_only previous.state (ground arith);
    not_streamed = ground arith;
    answer = ground arith;
    stored = ground arith;
  }
]

-- The table has the row.
abbrev pub IsRow : Request → List Request → Type 0
IsRow previous [] = ⊥
IsRow previous (r ∷ rows) = (previous ≡ r) ⊎ IsRow previous rows

-- The row was made under the idempotency key.
abbrev pub WasMade : (t k : ℕ) → String → Request → Type 0
WasMade t k idem r = (r.tenant_id ≡ t) × (r.key_id ≡ k) × (r.idempotency_key ≡ idem)

-- The UNIQUE constraint on tenant, key and idempotency key, for the rows of one such triple.
abbrev pub IsOnly : (t k : ℕ) → String → Request → List Request → Type 0
IsOnly t k idem previous = All (λ r. WasMade t k idem r → r ≡ previous)

previous_request-IsRow :
    (t k : ℕ) (idem : String) (previous : Request) (rows : List Request)
    → IsRow previous rows
    → WasMade t k idem previous
    → IsOnly t k idem previous rows
    → scalar (λ r. (r.tenant_id == t) && (r.key_id == k) && str_eq r.idempotency_key idem) rows
      ≡ some previous
previous_request-IsRow t k idem previous [] found made only = absurd found
previous_request-IsRow t k idem previous (r ∷ rows) (inl same) made only =
    let (tenant, key, idempotency) = made in
    rw
      (
        sym same,
        (==_iff previous.tenant_id t).1 tenant,
        (==_iff previous.key_id k).1 key,
        (str_eq_iff previous.idempotency_key idem).1 idempotency,
      )
      refl
previous_request-IsRow t k idem previous (r ∷ rows) (inr found) made only =
    let rest = previous_request-IsRow t k idem previous rows found made only.1 in
    let first : WasMade t k idem r → r ≡ previous = only.0 in
    if_intro (λ (o : Option Request). o ≡ some previous)
      ((r.tenant_id == t) && (r.key_id == k) && str_eq r.idempotency_key idem)
      (λ hit. ap some (
        first (
          (==_iff r.tenant_id t).0 (ground arith),
          (==_iff r.key_id k).0 (ground arith),
          (str_eq_iff r.idempotency_key idem).0 (ground arith),
        )))
      (λ miss. rest)

-- What a repeated request meets: the root budget, the active key, and a completed row.
pub record IsAnswerable (digest : Payload → String) (clock : Clock) (t k a : ℕ) (previous : Request)
    (response : Response) (p : Payload) (db : Db) : Type 0 where
  pub root : Budget
  pub rooted : root_budget db t (month clock) ≡ some root
  pub key : Key
  pub active : active_key db t k a ≡ some key
  pub same_payload : previous.payload_hash ≡ digest p
  pub completed : previous.state ≡ RequestState.completed
  pub stored : previous.response ≡ some response
  pub not_streamed : p.body.stream ≡ false

admit-answered :
    (digest : Payload → String) (clock : Clock) (uid t k a : ℕ) (idem : String) (p : Payload)
    (bound : ℕ) (token_bound : Option ℕ) (previous : Request) (response : Response) (db : Db)
    → previous_request db t k idem ≡ some previous
    → IsAnswerable digest clock t k a previous response p db
    → (admit digest clock uid t k a idem p (pos (suc bound)) token_bound db).0
      ≡ ok (previous.id, some response)
unfolding admit admit_body replay
admit-answered digest clock uid t k a idem p bound token_bound previous response db seen can =
    rw
      (
        transaction,
        can.rooted,
        can.active,
        seen,
        (str_eq_iff previous.payload_hash (digest p)).1 can.same_payload,
        can.stored,
        can.completed,
        can.not_streamed,
      )
      refl

-- If the table has a request that the tenant's key made under the idempotency key, in whatever
-- state, an admission under it writes nothing. It succeeds only by returning the stored response of
-- that request, which is completed, had the same payload digest and is not asked for as a stream;
-- and so it does succeed if the month has a root budget and the key is active. No other request may
-- have been made under the idempotency key.
pub admit-IsStored :
    (digest : Payload → String) (clock : Clock) (uid t k a : ℕ) (idem : String) (p : Payload)
    (bound : ℕ) (token_bound : Option ℕ) (previous : Request) (db : Db)
    → IsRow previous db.requests
    → WasMade t k idem previous
    → IsOnly t k idem previous db.requests
    → ((admit digest clock uid t k a idem p (pos (suc bound)) token_bound db).1 ≡ db)
      × ((x : ℕ × Option Response)
          → (admit digest clock uid t k a idem p (pos (suc bound)) token_bound db).0 ≡ ok x
          → IsStored digest previous p x)
      × ((response : Response)
          → IsAnswerable digest clock t k a previous response p db
          → (admit digest clock uid t k a idem p (pos (suc bound)) token_bound db).0
            ≡ ok (previous.id, some response))
admit-IsStored digest clock uid t k a idem p bound token_bound previous db found made only = (
  unchanged,
  answers,
  λ response can.
      admit-answered digest clock uid t k a idem p bound token_bound previous response db seen can,
)
  where
    seen : previous_request db t k idem ≡ some previous
    seen = previous_request-IsRow t k idem previous db.requests found made only

    outcome : Result (ℕ × Option Response) × Db
    outcome = admit digest clock uid t k a idem p (pos (suc bound)) token_bound db

    replayed :
        (x : ℕ × Option Response) (db' : Db)
        → outcome ≡ (ok x, db')
        → IsReplay digest clock uid t k a idem p (suc bound) token_bound x db db'
    replayed x db' e =
        elim (admit-cases digest clock uid t k a idem p (suc bound) token_bound x db db' e) [
          | inl r ↦ r
          | inr fresh ↦ absurd (cc (seen, fresh.unseen))
        ]

    answers : (x : ℕ × Option Response) → outcome.0 ≡ ok x → IsStored digest previous p x
    answers x e =
        let r = replayed x outcome.1 (ap (λ o. (o, outcome.1)) e) in
        replay-IsStored digest previous p x
          (rw (some-injective previous r.previous (sym seen ∙ r.seen)) r.answer)

    unchanged : outcome.1 ≡ db
    unchanged =
        admit-keeps (λ d. d ≡ db) digest clock uid t k a idem p (pos (suc bound)) token_bound db
          refl λ n x db' fresh. absurd (cc (seen, fresh.unseen))
