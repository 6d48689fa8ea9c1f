-- ===== src/Control/Contracts/Creation.antt =====
-- services/control_api/main.py, `create_contract`: the new token opens the new contract.
use Prim.Native.String.{compare}
use Prim.Native.Nat.{Ordering}
use text.Mathlib.Text.{is_eq}
use quiblyx.Common.{
  ℕ, ◌+◌, ◌≤◌, ◌<◌, ◌≡◌, refl, sym, ◌∙◌, ap, inl, inr, true, false, ◌||◌, none, some, List, [], ◌∷◌,
  arith, leb, ◌==◌, ◌&&◌, ==_refl, scalar, String, str_eq, str_eq_iff, Result, ok, err,
  Result-cases,
}
use quiblyx.Model.{Db, SpendContract, and_then, transaction, transaction-eq-ok}
use quiblyx.Chat.{Chat, Payload, model_dump}
use quiblyx.Accounting.Admission.{previous_request}
use quiblyx.Accounting.Clock.{Clock, month, today}
use quiblyx.Accounting.Budgets.{active_budgets}
use quiblyx.Accounting.Contracts.Cases.{create_contract_body-cases}
use quiblyx.Accounting.Creation.{
  Envelope, create_contract_body, create_spend_contract, envelope_bounds, envelope_is_empty,
  new_contract,
}
use quiblyx.Accounting.Frames.{reserve_contract-frame}
use quiblyx.Control.Tokens.{issue_contract_token}
use quiblyx.Accounting.Contracts.{
  Claims, Step, admit_contract, admit_contract_body, check_capacity, check_principal, contains_text,
  contract_at, is_contract,
}
use quiblyx.Control.Contracts.{
  ContractInput, create_contract, envelope_of, hand_out, may_contract, insert_text, sorted_set,
}

contains_text-insert_text :
    (x t : String) (us : List String)
    → contains_text x (insert_text t us) ≡ (str_eq x t || contains_text x us)
unfolding insert_text
contains_text-insert_text x t [] = refl
contains_text-insert_text x t (u ∷ us) = go (compare t u) refl (contains_text-insert_text x t us)
  where
    go :
        (o : Ordering)
        → compare t u ≡ o
        → contains_text x (insert_text t us) ≡ (str_eq x t || contains_text x us)
        → contains_text x (elim o as (λ _. List String) [
          | Ordering.lt ↦ t ∷ u ∷ us
          | Ordering.eq ↦ u ∷ us
          | Ordering.gt ↦ u ∷ insert_text t us
        ])
          ≡ (str_eq x t || (str_eq x u || contains_text x us))
    go Ordering.lt e rest = refl
    go Ordering.eq e rest =
        let same : t ≡ u = (str_eq_iff t u).0 (ap is_eq e) in ground (arith, ap (str_eq x) same)
    go Ordering.gt e rest = ground (arith, rest)

contains_text-sorted_set :
    (x : String) (ts : List String) → contains_text x (sorted_set ts) ≡ contains_text x ts
unfolding sorted_set
contains_text-sorted_set x [] = refl
contains_text-sorted_set x (t ∷ ts) =
    contains_text-insert_text x t (sorted_set ts)
    ∙ ap (λ b. str_eq x t || b) (contains_text-sorted_set x ts)

create_spend_contract-found :
    (clock : Clock) (uid t a k : ℕ) (env : Envelope) (n : ℕ) (db db' : Db)
    → create_spend_contract clock uid t a k env db ≡ (ok n, db')
    → (n ≡ uid)
      × (db'.contracts ≡ new_contract uid t a k env ∷ db.contracts)
      × (db'.requests ≡ db.requests)
      × (envelope_is_empty env ≡ false)
unfolding create_spend_contract
create_spend_contract-found clock uid t a k env n db db' e =
    let made =
      create_contract_body-cases clock uid t a k env n db db'
        (transaction-eq-ok (create_contract_body clock uid t a k env) db n db' e) in
    let frame =
      reserve_contract-frame t uid (envelope_bounds env)
        (active_budgets db t (t ∷ a ∷ made.path) (month clock) (today clock))
        (record db { contracts = new_contract uid t a k env ∷ db.contracts }) in
    (
      made.answer,
      ap (λ d. d.contracts) (made.result ∙ frame),
      ap (λ d. d.requests) (made.result ∙ frame),
      made.positive,
    )

-- The contract as it was created, with its token, in a database that has no other new request.
pub record IsOpened (now uid t : ℕ) (input : ContractInput) (c : SpendContract) (token : Claims)
    (db db' : Db) : Type 0 where
  pub fresh : c ≡ new_contract uid t input.application_id input.key_id (envelope_of now input)
  pub signed : token ≡ issue_contract_token c
  pub found : contract_at db' t uid ≡ some c
  pub same : db'.requests ≡ db.requests
  pub positive : envelope_is_empty (envelope_of now input) ≡ false

handed-IsOpened :
    (now : ℕ) (clock : Clock) (uid t : ℕ) (input : ContractInput) (subject : String)
    (c : SpendContract) (token : Claims) (db db' : Db) (out : Result ℕ × Db)
    → create_spend_contract clock uid t input.application_id input.key_id (envelope_of now input) db
      ≡ out
    → ◌≡◌ {A = Result (SpendContract × Claims) × Db}
        (and_then out (λ contract_id. transaction (hand_out t contract_id subject)))
        (ok (c, token), db')
    → IsOpened now uid t input c token db db'
handed-IsOpened now clock uid t input subject c token db db' (err x, mid) eq e =
    absurd (ground arith)
handed-IsOpened now clock uid t input subject c token db db' (ok n, mid) eq e =
    let (drawn, contracts, requests, positive) =
      create_spend_contract-found clock uid t input.application_id input.key_id
        (envelope_of now input) n db mid eq in
    let new = new_contract uid t input.application_id input.key_id (envelope_of now input) in
    let done = transaction-eq-ok (hand_out t n subject) mid (c, token) db' e in
    let found : contract_at mid t uid ≡ some new =
      ap (scalar (is_contract t uid)) contracts ∙ rw (==_refl t, ==_refl uid) refl in
    let row : contract_at mid t n ≡ some new = ap (contract_at mid t) drawn ∙ found in
    let same : c ≡ new = ground arith in
    let rows : db'.contracts ≡ mid.contracts = ground arith in
    let kept : db'.requests ≡ mid.requests = ground arith in
    record {
      fresh = same;
      signed = ground arith;
      found = ap (scalar (is_contract t uid)) rows ∙ found ∙ ap (λ x. some x) (sym same);
      same = kept ∙ requests;
      positive = positive;
    }

create_contract-IsOpened :
    (now : ℕ) (clock : Clock) (uid t : ℕ) (input : ContractInput) (subject : String)
    (c : SpendContract) (token : Claims) (db db' : Db)
    → create_contract now clock uid t input subject db ≡ (ok (c, token), db')
    → IsOpened now uid t input c token db db'
unfolding create_contract
create_contract-IsOpened now clock uid t input subject c token db db' e =
    elim (Result-cases (may_contract t input subject db)) [
      | inl (x, refused) ↦ absurd (ground arith)
      | inr (role, permitted) ↦
          handed-IsOpened now clock uid t input subject c token db db' _ refl
            (rw (permitted, create_contract) at e)
    ]

-- The first step under the new token passes every check.
opened-check_principal :
    (now uid t : ℕ) (input : ContractInput) (c : SpendContract) (token : Claims) (db db' : Db)
    (clock : Clock) (body : Chat) (st : Step)
    → IsOpened now uid t input c token db db'
    → contains_text st.model input.allowed_models ≡ true
    → clock.now < now + input.duration_seconds
    → check_principal clock token (model_dump body) st c ≡ ok tt
unfolding check_principal
opened-check_principal now uid t input c token db db' clock body st h model live =
    let allowed : contains_text st.model (sorted_set input.allowed_models) ≡ true =
      contains_text-sorted_set st.model input.allowed_models ∙ model in
    let expired : leb (now + input.duration_seconds) clock.now ≡ false = ground arith in
    rw (h.signed, h.fresh, ==_refl input.application_id, ==_refl input.key_id, allowed, expired)
      refl

opened-check_capacity :
    (now uid t : ℕ) (input : ContractInput) (c : SpendContract) (token : Claims) (db db' : Db)
    (st : Step)
    → IsOpened now uid t input c token db db'
    → st.cost_bound ≤ input.max_cost_microusd
    → st.token_bound ≤ input.max_tokens
    → check_capacity st c ≡ ok tt
unfolding check_capacity
opened-check_capacity now uid t input c token db db' st h cost tokens =
    let fresh = h.fresh in let positive = h.positive in ground arith

-- A contract that is created opens with the token that is handed out: while it has not expired, a
-- step for one of the models that were asked for, within the maximum cost and tokens, under an
-- idempotency key that the key has not used, is admitted under the identifier that it draws.
pub create_contract-opens :
    (digest : Payload → String) (now : ℕ) (clock clock' : Clock) (uid q t : ℕ)
    (input : ContractInput) (subject : String) (c : SpendContract) (token : Claims) (db db' : Db)
    (idem : String) (body : Chat) (st : Step)
    → create_contract now clock uid t input subject db ≡ (ok (c, token), db')
    → contains_text st.model input.allowed_models ≡ true
    → st.cost_bound ≤ input.max_cost_microusd
    → st.token_bound ≤ input.max_tokens
    → clock'.now < now + input.duration_seconds
    → previous_request db t input.key_id idem ≡ none
    → (admit_contract digest clock' q token idem (model_dump body) st db').0 ≡ ok (q, none, uid)
unfolding admit_contract admit_contract_body
create_contract-opens digest now clock clock' uid q t input subject c token db db' idem body st e
      model cost tokens live unused =
    let h = create_contract-IsOpened now clock uid t input subject c token db db' e in
    let principal =
      opened-check_principal now uid t input c token db db' clock' body st h model live in
    let capacity = opened-check_capacity now uid t input c token db db' st h cost tokens in
    let named : (token.tenant_id ≡ t)
        × (token.sub ≡ uid)
        × (c.key_id ≡ input.key_id)
        × (c.id ≡ uid) =
      (
        ap (λ x. x.tenant_id) h.signed ∙ ap (λ x. x.tenant_id) h.fresh,
        ap (λ x. x.sub) h.signed ∙ ap (λ x. x.id) h.fresh,
        ap (λ x. x.key_id) h.fresh,
        ap (λ x. x.id) h.fresh,
      ) in
    let found : contract_at db' token.tenant_id token.sub ≡ some c =
      ap (λ x. contract_at db' x token.sub) named.0 ∙ ap (contract_at db' t) named.1 ∙ h.found in
    let unseen : previous_request db' token.tenant_id c.key_id idem ≡ none =
      ap (λ x. previous_request db' x c.key_id idem) named.0
      ∙ ap (λ x. previous_request db' t x idem) named.2
      ∙ ap
          (λ rows.
            scalar
              (λ r.
                (r.tenant_id == t) && (r.key_id == input.key_id) && str_eq r.idempotency_key idem)
              rows)
          h.same
      ∙ unused in
    rw (found, principal, unseen, capacity, transaction, named.3) refl
