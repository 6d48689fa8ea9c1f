-- ===== src/Accounting/Contracts/Inactive.antt =====
-- packages/domain/accounting.py: a spend contract that is no longer active stays so.
use quiblyx.Common.{
  ℕ, ◌≡◌, refl, sym, ◌∙◌, ap, subst, inl, inr, true, false, Bool-cases, some, List, [], ◌∷◌, arith,
  contains, map, scalar, scalar-contains, scalar-update, scalar_hit, update, ◌==◌, ==_iff, &&_true,
  if◌then◌else◌, String, ok, err, http,
}
use quiblyx.Model.{Db, transaction, transaction-keeps, Request, SpendContract, ContractState}
use quiblyx.Chat.{Payload}
use quiblyx.Accounting.Clock.{Clock, month, today}
use quiblyx.Accounting.Budgets.{active_budgets}
use quiblyx.Accounting.Admission.Cases.{admit-keeps}
use quiblyx.Accounting.Settlement.{
  Usage, finish_request, settle_budgets, transition, transition_body,
}
use quiblyx.Accounting.Contracts.{
  Claims, Step, admit_contract, admit_contract_body, allocate, allocated, check_principal,
  contract_at, is_active, is_contract,
}
use quiblyx.Accounting.Creation.{
  create_contract_body, create_spend_contract, envelope_bounds, new_contract,
}
use quiblyx.Accounting.Contracts.Cases.{create_contract_body-cases, admit_contract-keeps}
use quiblyx.Accounting.Closing.{
  close_spend_contract, closing_state, finish_contract, is_final_state, settle, settle_body,
  settle_contract_request, settled_contract,
}
use quiblyx.Accounting.Closing.Cases.{
  settle_body-keeps, settle_budgets-cases, settle_contract_request-cases,
}
use quiblyx.Accounting.Closing.Closures.{close-keeps}
use quiblyx.Accounting.Frames.{
  close_all-frame, reserve_all-frame, reserve_contract-frame, settle_all-frame,
}
use quiblyx.Accounting.Calls.{AreFreshCalls, Call, IsFreshCall, after, run}

-- The contract exists and is revoked, expired or completed.
pub record IsInactive (t i : ℕ) (db : Db) : Type 0 where
  pub contract : SpendContract
  pub found : contract_at db t i ≡ some contract
  pub inactive : is_active contract.state ≡ false

module _ (t i : ℕ) where
  pub same-IsInactive :
      (db db' : Db) → db'.contracts ≡ db.contracts → IsInactive t i db → IsInactive t i db'
  same-IsInactive db db' same h = record {
    contract = h.contract;
    found = ap (scalar (is_contract t i)) same ∙ h.found;
    inactive = h.inactive;
  }

  -- An update of a contract that wakes no inactive one.
  pub update-IsInactive :
      (t' i' : ℕ) (f : SpendContract → SpendContract) (db db' : Db)
      → ((x : SpendContract) → is_contract t i (f x) ≡ is_contract t i x)
      → ((x : SpendContract)
          → is_contract t' i' x ≡ true
          → is_active x.state ≡ false
          → is_active (f x).state ≡ false)
      → db'.contracts ≡ update (is_contract t' i') f db.contracts
      → IsInactive t i db
      → IsInactive t i db'
  update-IsInactive t' i' f db db' keeps sleeps made h = record {
    contract = if is_contract t' i' h.contract then f h.contract else h.contract;
    found =
        ap (scalar (is_contract t i)) made
        ∙ scalar-update (is_contract t i) (is_contract t' i') f db.contracts keeps
        ∙ rw h.found refl;
    inactive = elim (Bool-cases (is_contract t' i' h.contract)) [
      | inl hit ↦ rw hit (sleeps h.contract hit h.inactive)
      | inr miss ↦ rw miss h.inactive
    ];
  }

  -- A contract more, under a new identifier.
  add-IsInactive :
      (new : SpendContract) (db db' : Db)
      → contains new.id (map (λ c. c.id) db.contracts) ≡ false
      → db'.contracts ≡ new ∷ db.contracts
      → IsInactive t i db
      → IsInactive t i db'
  add-IsInactive new db db' unused made h = record {
    contract = h.contract;
    found = ap (scalar (is_contract t i)) made ∙ elim (Bool-cases (is_contract t i new)) [
      | inr other ↦ rw other h.found
      | inl hit ↦
          let mine =
            scalar-contains (λ c. c.id) (is_contract t i) db.contracts h.contract h.found in
          let yours = (==_iff new.id i).0 (&&_true (new.tenant_id == t) _ hit).1 in
          let same =
            (==_iff h.contract.id i).0
              (&&_true (h.contract.tenant_id == t) _
                (scalar_hit (is_contract t i) db.contracts h.contract h.found)).1 in
          absurd (ground (arith, mine, yours, same, unused))
    ];
    inactive = h.inactive;
  }

  settle_contract_request-IsInactive :
      (req : Request) (u : Usage) (db db' : Db)
      → IsInactive t i db
      → settle_contract_request req u db ≡ ok (tt, db')
      → IsInactive t i db'
  unfolding finish_request
  settle_contract_request-IsInactive req u db db' h e =
      elim (settle_contract_request-cases req u db db' e) [
        | inl (_, same) ↦ subst (IsInactive t i) (sym same) h
        | inr s ↦
            update-IsInactive req.tenant_id s.contract.id
              (settled_contract s.allocation u s.cost s.spent) db db' (λ x. ground arith)
              (λ x _ inactive. ground arith) (ap (λ d. d.contracts) s.result) h
      ]

  settle_budgets-IsInactive :
      (t' q : ℕ) (req : Request) (u : Usage) (db db' : Db)
      → IsInactive t i db
      → settle_budgets t' q req u db ≡ ok (tt, db')
      → IsInactive t i db'
  unfolding finish_request
  settle_budgets-IsInactive t' q req u db db' h e =
      elim (settle_budgets-cases t' q req u db db' e) [
        | inl (_, same) ↦ subst (IsInactive t i) (sym same) h
        | inr s ↦
            same-IsInactive db db'
              (ap (λ d. d.contracts) s.result
                ∙ ap (λ d. d.contracts)
                    (settle_all-frame t' q s.cost req.bound u _ db s.charged s.rounds))
              h
      ]

  closing_state-inactive :
      (s final : ContractState)
      → is_final_state final ≡ true
      → is_active (closing_state s final) ≡ false
  closing_state-inactive s final h = ground arith

  pub close_spend_contract-IsInactive :
      (clock : Clock) (t' i' : ℕ) (final : ContractState) (db : Db)
      → IsInactive t i db
      → IsInactive t i (close_spend_contract clock t' i' final db).1
  unfolding finish_contract close_spend_contract
  close_spend_contract-IsInactive clock t' i' final db h =
      elim (Bool-cases (is_final_state final)) [
        | inr refused ↦ rw (refused, close_spend_contract) h
        | inl accepted ↦ close-keeps (IsInactive t i) clock t' i' final db h λ db' closed.
            update-IsInactive t' closed.contract.id _ closed.released db' (λ x. refl)
              (λ x _ _. closing_state-inactive closed.contract.state final accepted)
              (ap (λ d. d.contracts) closed.result)
              (same-IsInactive db closed.released
                (ap (λ d. d.contracts)
                  (close_all-frame t' closed.contract _ db closed.released closed.rounds))
                h)
      ]

  -- No call wakes it, if the identifier that the call draws is new.
  pub after-IsInactive :
      (digest : Payload → String) (c : Call) (db : Db)
      → IsFreshCall c db
      → IsInactive t i db
      → IsInactive t i (after digest c db)
  unfolding after transition transition_body settle create_spend_contract allocate
  after-IsInactive digest (Call.admits clock uid t' k a idem p z tb) db n h =
      admit-keeps (IsInactive t i) digest clock uid t' k a idem p z tb db h λ m x db' fresh.
        same-IsInactive db db'
          (ap (λ d. d.contracts) (fresh.result ∙ reserve_all-frame t' uid _ fresh.budgets _)) h
  after-IsInactive digest (Call.transitions t' q state) db n h =
      transaction-keeps (IsInactive t i) (transition_body t' q state) db h
        (λ _ db' e. same-IsInactive db db' (ground arith) h)
  after-IsInactive digest (Call.settles t' q u) db n h =
      transaction-keeps (IsInactive t i) (settle_body t' q u) db h λ _ db' e.
        settle_body-keeps (IsInactive t i) t' q u db db' e
          (λ req _. settle_contract_request-IsInactive req u db db' h)
          (λ req _. settle_budgets-IsInactive t' q req u db db' h)
  after-IsInactive digest (Call.creates_contract clock uid t' a k env) db n h =
      transaction-keeps (IsInactive t i) (create_contract_body clock uid t' a k env) db h λ x db' e.
        let made = create_contract_body-cases clock uid t' a k env x db db' e in
        let added : Db = record db { contracts = new_contract uid t' a k env ∷ db.contracts } in
        add-IsInactive (new_contract uid t' a k env) db db' n
          (ap (λ d. d.contracts)
            (made.result
              ∙ reserve_contract-frame t' uid (envelope_bounds env)
                  (active_budgets db t' (t' ∷ a ∷ made.path) (month clock) (today clock)) added))
          h
  after-IsInactive digest (Call.admits_step clock uid claims idem p st) db n h =
      admit_contract-keeps (IsInactive t i) digest clock uid claims idem p st db h λ x db' made.
        update-IsInactive claims.tenant_id made.contract.id (allocated st) db db' (λ x. refl)
          (λ x _ inactive. inactive) (ap (λ d. d.contracts) made.result) h
  after-IsInactive digest (Call.closes_contract clock t' i' state) db n h =
      close_spend_contract-IsInactive clock t' i' state db h

  pub run-IsInactive :
      (digest : Payload → String) (cs : List Call) (db : Db)
      → AreFreshCalls digest cs db
      → IsInactive t i db
      → IsInactive t i (run digest cs db)
  unfolding run
  run-IsInactive digest [] db n h = h
  run-IsInactive digest (c ∷ cs) db n h =
      run-IsInactive digest cs (after digest c db) n.1 (after-IsInactive digest c db n.0 h)

-- Its token admits nothing, whatever version it has.
pub admit_contract-inactive :
    (digest : Payload → String) (clock : Clock) (uid : ℕ) (claims : Claims) (idem : String)
    (p : Payload) (st : Step) (db : Db)
    → IsInactive claims.tenant_id claims.sub db
    → admit_contract digest clock uid claims idem p st db
      ≡ (err (http 401 "inactive_spend_contract"), db)
unfolding admit_contract admit_contract_body check_principal
admit_contract-inactive digest clock uid claims idem p st db h =
    rw (h.found, h.inactive, transaction) refl
