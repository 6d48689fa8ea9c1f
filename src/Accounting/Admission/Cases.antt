-- ===== src/Accounting/Admission/Cases.antt =====
-- How `admit` (packages/domain/accounting.py) can succeed: by a replay, or by a new request.
use quiblyx.Common.{
  ℤ, zero, suc, ap, ◌∙◌, ℕ, ◌≢◌, ◌≡◌, refl, ◌⊎◌, pos, inl, inr, Option, none, some, Option-cases,
  List, ◌∷◌, arith, String, ok, err, Error, sym, Result-cases,
}
use quiblyx.Model.{
  Db, transaction, transaction-eq-ok, transaction-eq-err, transaction-keeps, Budget, Request,
  Response,
}
use quiblyx.Chat.{Payload}
use quiblyx.Accounting.Clock.{Clock, month}
use quiblyx.Accounting.Budgets.{root_budget}
use quiblyx.Accounting.Admission.{
  admit, positive, admit_body, replay, previous_request, admissible, request_bounds, new_request,
  reserve_all,
}

positive-eq-ok : (n m : ℕ) → positive (pos n) ≡ ok m → n ≡ m
positive-eq-ok zero m e = cc
positive-eq-ok (suc n) m e = cc

module _ (payload_digest : Payload → String) (clock : Clock) (uid tenant key_id application_id : ℕ)
    (idem : String) (payload : Payload) (bound : ℕ) (token_bound : Option ℕ) where
  -- The request is new, may run, and its budgets are reserved.
  pub record IsFresh (x : ℕ × Option Response) (db db' : Db) : Type 0 where
    pub budgets : List Budget
    pub root : Budget
    pub rooted : root_budget db tenant (month clock) ≡ some root
    pub unseen : previous_request db tenant key_id idem ≡ none
    pub allowed :
        admissible clock tenant application_id (request_bounds bound token_bound) db ≡ ok budgets
    pub answer : x ≡ (uid, none)
    pub result :
        db'
        ≡ reserve_all tenant uid (request_bounds bound token_bound) budgets (record db {
          requests =
              new_request payload_digest clock uid tenant key_id application_id idem payload bound
              ∷ db.requests;
        })

  -- The request was admitted before, and nothing is written.
  pub record IsReplay (x : ℕ × Option Response) (db db' : Db) : Type 0 where
    pub previous : Request
    pub seen : previous_request db tenant key_id idem ≡ some previous
    pub answer : replay payload_digest previous payload ≡ ok x
    pub result : db' ≡ db

  pub admit_body-cases :
      (x : ℕ × Option Response) (db db' : Db)
      → admit_body payload_digest clock uid tenant key_id application_id idem payload bound
          token_bound db
        ≡ ok (x, db')
      → IsReplay x db db' ⊎ IsFresh x db db'
  unfolding admit_body
  admit_body-cases x db db' e = elim (Option-cases (previous_request db tenant key_id idem)) [
    | inl unseen ↦
        elim (Result-cases
          (admissible clock tenant application_id (request_bounds bound token_bound) db)) [
            | inl (_, refused) ↦ absurd (ground arith)
            | inr (budgets, allowed) ↦ elim (Option-cases (root_budget db tenant (month clock))) [
              | inl missing ↦ absurd (ground arith)
              | inr (root, rooted) ↦ inr (record {
                budgets = budgets;
                root = root;
                rooted = rooted;
                unseen = unseen;
                allowed = allowed;
                answer = ground arith;
                result = ground arith;
              })
            ]
          ]
    | inr (previous, seen) ↦ elim (Result-cases (replay payload_digest previous payload)) [
      | inl (_, refused) ↦ absurd (ground arith)
      | inr (answer, replayed) ↦ inl (record {
        previous = previous;
        seen = seen;
        answer = ground arith;
        result = ground arith;
      })
    ]
  ]

  -- Only a replay answers with a stored response.
  pub replay-ne-none :
      (previous : Request) (x : ℕ × Option Response)
      → replay payload_digest previous payload ≡ ok x
      → x.1 ≢ none
  unfolding replay
  replay-ne-none previous x e none_stored = elim (Option-cases previous.response) [
    | inl missing ↦ ground arith
    | inr (response, stored) ↦ ground arith
  ]

  -- An admission without a stored response is a fresh one.
  pub IsFresh-of_none :
      (q : ℕ) (db db' : Db)
      → IsReplay (q, none) db db' ⊎ IsFresh (q, none) db db'
      → IsFresh (q, none) db db'
  IsFresh-of_none q db db' (inl replayed) =
      absurd (replay-ne-none replayed.previous (q, none) replayed.answer refl)
  IsFresh-of_none q db db' (inr fresh) = fresh

  pub admit-cases :
      (x : ℕ × Option Response) (db db' : Db)
      → admit payload_digest clock uid tenant key_id application_id idem payload
          (pos bound)
          token_bound
          db
        ≡ (ok x, db')
      → IsReplay x db db' ⊎ IsFresh x db db'
  unfolding admit
  admit-cases x db db' e = elim (Result-cases (positive (pos bound))) [
    | inl (_, refused) ↦ absurd (ground arith)
    | inr (n, accepted) ↦ admit_body-cases x db db' (
        transaction-eq-ok
          (admit_body payload_digest clock uid tenant key_id application_id idem payload bound
            token_bound)
          db x db'
          (ap
              (λ m.
                transaction
                  (admit_body payload_digest clock uid tenant key_id application_id idem payload m
                    token_bound)
                  db)
              (positive-eq-ok bound n accepted)
            ∙ (rw (accepted, admit) at e)))
  ]

-- A refused admission has written nothing.
pub admit-eq-err :
    (digest : Payload → String) (clock : Clock) (uid t k a : ℕ) (idem : String) (p : Payload)
    (z : ℤ) (token_bound : Option ℕ) (db : Db) (e : Error) (db' : Db)
    → admit digest clock uid t k a idem p z token_bound db ≡ (err e, db')
    → db' ≡ db
unfolding admit
admit-eq-err digest clock uid t k a idem p z token_bound db e db' h =
    elim (Result-cases (positive z)) [
      | inl (x, refused) ↦
          let out : (err x, db) ≡ (err e, db') = rw (refused, admit) at h in sym (ap (λ r. r.1) out)
      | inr (n, accepted) ↦
          transaction-eq-err (admit_body digest clock uid t k a idem p n token_bound) db e db'
            (rw (accepted, admit) at h)
    ]

-- What holds of the database holds after an admission, if the writes of a new request keep it.
pub admit-keeps {ℓ} :
    (P : Db → Type ℓ) (digest : Payload → String) (clock : Clock) (uid t k a : ℕ) (idem : String)
    (p : Payload) (z : ℤ) (token_bound : Option ℕ) (db : Db)
    → P db
    → ((n : ℕ) (x : ℕ × Option Response) (db' : Db)
        → IsFresh digest clock uid t k a idem p n token_bound x db db'
        → P db')
    → P (admit digest clock uid t k a idem p z token_bound db).1
unfolding admit
admit-keeps P digest clock uid t k a idem p z token_bound db h keep =
    elim (Result-cases (positive z)) [
      | inl (_, refused) ↦ rw (refused, admit) h
      | inr (n, accepted) ↦
          rw (accepted, admit)
            (transaction-keeps P (admit_body digest clock uid t k a idem p n token_bound) db h
              λ x db' e.
                elim (admit_body-cases digest clock uid t k a idem p n token_bound x db db' e) [
                  | inl replayed ↦ rw replayed.result h
                  | inr fresh ↦ keep n x db' fresh
                ])
    ]
