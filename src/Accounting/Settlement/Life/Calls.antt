-- ===== src/Accounting/Settlement/Life/Calls.antt =====
-- Under every history of calls a request only moves forward, and a finished one stays as it is.
use quiblyx.Common.{
  update, ℕ, ◌≡◌, refl, sym, ◌∙◌, ap, inl, inr, Bool, true, false, Bool-cases, some, Option-cases,
  List, [], ◌∷◌, arith, contains, map, scalar, scalar-contains, scalar_hit, String, ok,
}
use quiblyx.Model.{Db, transaction-keeps, Request, RequestState}
use quiblyx.Chat.{Payload}
use quiblyx.Accounting.Clock.{month, today}
use quiblyx.Accounting.Budgets.{active_budgets}
use quiblyx.Accounting.Admission.Cases.{admit-keeps}
use quiblyx.Accounting.Settlement.{
  Usage, settle_budgets, is_final, is_request, request_at, transition_body, transition, finished,
  finish_request,
}
use quiblyx.Accounting.Settlement.Life.{
  IsLater-refl, IsLater-trans, Continues, update-Continues, is_request-eq, moved-IsLater,
  finished-IsLater,
}
use quiblyx.Accounting.Contracts.{allocate}
use quiblyx.Accounting.Creation.{
  envelope_bounds, new_contract, create_spend_contract, create_contract_body,
}
use quiblyx.Accounting.Contracts.Cases.{create_contract_body-cases, admit_contract-keeps}
use quiblyx.Accounting.Closing.{settle, settle_body, settle_contract_request, finish_contract}
use quiblyx.Accounting.Closing.Cases.{
  settle_body-keeps, settle_contract_request-cases, settle_budgets-cases,
}
use quiblyx.Accounting.Closing.Closures.{close-keeps}
use quiblyx.Accounting.Frames.{
  reserve_all-frame, reserve_contract-frame, settle_all-frame, close_all-frame,
}
use quiblyx.Accounting.Calls.{Call, after, run, IsFreshCall, AreFreshCalls}

clash : {a b : Bool} → a ≡ false → a ≡ b → b ≡ true → ⊥
clash no_hit same hit = cc

module _ (t q : ℕ) (r : Request) where
  -- Nothing happens to the table of requests.
  same-Continues :
      (db db' : Db) → request_at db t q ≡ some r → db'.requests ≡ db.requests → Continues t q r db'
  same-Continues db db' e same = record {
    row = r;
    found = ap (scalar (is_request t q)) same ∙ e;
    later = IsLater-refl r;
  }

  -- A request with a new identifier is added.
  added-Continues :
      (db db' : Db) (new : Request)
      → request_at db t q ≡ some r
      → contains new.id (map (λ x. x.id) db.requests) ≡ false
      → db'.requests ≡ new ∷ db.requests
      → Continues t q r db'
  added-Continues db db' new e unused same = record {
    row = r;
    found = ap (scalar (is_request t q)) same ∙ elim (Bool-cases (is_request t q new)) [
      | inr other ↦ rw other e
      | inl hit ↦
          let mine = is_request-eq t q r (scalar_hit _ db.requests r e) in
          let yours = is_request-eq t q new hit in
          absurd (
            clash unused (ap (λ n. contains n (map (λ x. x.id) db.requests)) (yours.0 ∙ sym mine.0))
              (scalar-contains (λ x. x.id) (is_request t q) db.requests r e))
    ];
    later = IsLater-refl r;
  }

  transition-Continues :
      (t' q' : ℕ) (state : RequestState) (db : Db)
      → request_at db t q ≡ some r
      → Continues t q r (transition t' q' state db).1
  unfolding transition transition_body
  transition-Continues t' q' state db e =
      transaction-keeps (Continues t q r) (transition_body t' q' state) db
        (same-Continues db db e refl)
        λ _ db' done. elim (Option-cases (request_at db t' q')) [
          | inl missing ↦ absurd (ground arith)
          | inr (req, found) ↦ elim (Bool-cases (is_final req.state)) [
            | inl final ↦ same-Continues db db' e (ground arith)
            | inr pending ↦
                update-Continues t q t' q' (λ x. record x { state = state }) db db' r req e found
                  (λ x. refl) (λ x. refl) (moved-IsLater req state pending (ground arith))
                  (ground arith)
          ]
        ]

  settle_contract_request-Continues :
      (req : Request) (t' q' : ℕ) (u : Usage) (db db' : Db)
      → request_at db t q ≡ some r
      → request_at db t' q' ≡ some req
      → settle_contract_request req u db ≡ ok (tt, db')
      → Continues t q r db'
  unfolding finish_request
  settle_contract_request-Continues req t' q' u db db' e found done =
      elim (settle_contract_request-cases req u db db' done) [
        | inl (_, same) ↦ same-Continues db db' e (ap (λ d. d.requests) same)
        | inr s ↦
            update-Continues t q req.tenant_id req.id (finished s.cost u) db db' r req e
              (own t' q' req db found) (λ x. refl) (λ x. refl)
              (finished-IsLater s.cost u req s.pending s.releasable) (ap (λ d. d.requests) s.result)
      ]
    where
      own :
          (t' q' : ℕ) (req : Request) (db : Db)
          → request_at db t' q' ≡ some req
          → request_at db req.tenant_id req.id ≡ some req
      own t' q' req db found =
          let mine = is_request-eq t' q' req (scalar_hit _ db.requests req found) in
          ap (λ n. request_at db n req.id) mine.1 ∙ ap (request_at db t') mine.0 ∙ found

  settle_budgets-Continues :
      (req : Request) (t' q' : ℕ) (u : Usage) (db db' : Db)
      → request_at db t q ≡ some r
      → request_at db t' q' ≡ some req
      → settle_budgets t' q' req u db ≡ ok (tt, db')
      → Continues t q r db'
  unfolding finish_request
  settle_budgets-Continues req t' q' u db db' e found done =
      elim (settle_budgets-cases t' q' req u db db' done) [
        | inl (_, same) ↦ same-Continues db db' e (ap (λ d. d.requests) same)
        | inr s ↦
            let rows =
              ap (λ d. d.requests)
                (settle_all-frame t' q' s.cost req.bound u _ db s.charged s.rounds) in
            update-Continues t q t' q' (finished s.cost u) db db' r req e found (λ x. refl)
              (λ x. refl) (finished-IsLater s.cost u req s.pending s.releasable)
              (ap (λ d. d.requests) s.result
                ∙ ap (update (is_request t' q') (finished s.cost u)) rows)
      ]

  -- A call leaves the request where it is in its life or moves it forward, if the identifier that
  -- the call draws is new.
  pub after-Continues :
      (digest : Payload → String) (c : Call) (db : Db)
      → IsFreshCall c db
      → request_at db t q ≡ some r
      → Continues t q r (after digest c db)
  unfolding after settle create_spend_contract allocate finish_contract
  after-Continues digest (Call.admits clock uid t' k a idem p z tb) db n e =
      admit-keeps (Continues t q r) digest clock uid t' k a idem p z tb db
        (same-Continues db db e refl)
        λ m x db' fresh.
          added-Continues db db' _ e n
            (ap (λ d. d.requests) (fresh.result ∙ reserve_all-frame t' uid _ fresh.budgets _))
  after-Continues digest (Call.transitions t' q' state) db n e =
      transition-Continues t' q' state db e
  after-Continues digest (Call.settles t' q' u) db n e =
      transaction-keeps (Continues t q r) (settle_body t' q' u) db (same-Continues db db e refl)
        λ _ db' done.
          settle_body-keeps (Continues t q r) t' q' u db db' done
            (λ req found. settle_contract_request-Continues req t' q' u db db' e found)
            (λ req found. settle_budgets-Continues req t' q' u db db' e found)
  after-Continues digest (Call.creates_contract clock uid t' a k env) db n e =
      transaction-keeps (Continues t q r) (create_contract_body clock uid t' a k env) db
        (same-Continues db db e refl)
        λ x db' done.
          let made = create_contract_body-cases clock uid t' a k env x db db' done in
          same-Continues db db' e (
            ap (λ d. d.requests)
              (made.result
                ∙ reserve_contract-frame t' uid (envelope_bounds env)
                    (active_budgets db t' (t' ∷ a ∷ made.path) (month clock) (today clock))
                    (record db { contracts = new_contract uid t' a k env ∷ db.contracts })))
  after-Continues digest (Call.admits_step clock uid claims idem p st) db n e =
      admit_contract-keeps (Continues t q r) digest clock uid claims idem p st db
        (same-Continues db db e refl)
        λ x db' made. added-Continues db db' _ e n (ap (λ d. d.requests) made.result)
  after-Continues digest (Call.closes_contract clock t' i state) db n e =
      close-keeps (Continues t q r) clock t' i state db (same-Continues db db e refl) λ db' closed.
        same-Continues db db' e (
          ap (λ d. d.requests) closed.result
          ∙ ap (λ d. d.requests)
              (close_all-frame t' closed.contract _ db closed.released closed.rounds))

-- Whatever calls are made in whatever order, a request that exists is found again under its tenant
-- and identifier, its state has only moved forward (reserved, dispatched, uncertain, final), its
-- owner, key, idempotency key, payload digest, bound and contract are the same, and if it was
-- completed or released its row is unchanged. Each call must draw an identifier not in use.
pub run-Continues :
    (t q : ℕ) (r : Request) (digest : Payload → String) (cs : List Call) (db : Db)
    → AreFreshCalls digest cs db
    → request_at db t q ≡ some r
    → Continues t q r (run digest cs db)
unfolding run
run-Continues t q r digest [] db n e = same-Continues t q r db db e refl
run-Continues t q r digest (c ∷ cs) db n e =
    let one = after-Continues t q r digest c db n.0 e in
    let rest = run-Continues t q one.row digest cs (after digest c db) n.1 one.found in
    record {
      row = rest.row;
      found = rest.found;
      later = IsLater-trans r one.row rest.row one.later rest.later;
    }
