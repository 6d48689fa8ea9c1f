-- ===== src/Gateway/Chats/Endings.antt =====
-- services/gateway/main.py, `execute` in `chat`: what a dispatched request ends as.
use quiblyx.Common.{
  ℕ, ◌≡◌, ◌≢◌, refl, sym, ◌∙◌, ap, subst, ◌⊎◌, inl, inr, Bool, true, false, Option, some,
  Option-cases, List, ◌++◌, arith, if◌then◌else◌, if_intro, leb, length, scalar_hit, update, String,
  ℤ, negsuc, pos, Result, ok, err,
}
use quiblyx.Model.{attempt, Db, Request, RequestState, Response, transaction}
use quiblyx.Chat.{Chat}
use quiblyx.Accounting.Settlement.{
  finished, is_final, is_request, request_at, transition, transition_body,
}
use quiblyx.Accounting.Settlement.Life.{request_at-update}
use quiblyx.Accounting.Closing.{settle, settle_body}
use quiblyx.Accounting.Closing.Completion.{settle_body-IsFinished}
use quiblyx.Provider.{chunks, joined}
use quiblyx.Gateway.{result}
use quiblyx.Gateway.Streams.{
  Delivery, Departure, Ending, StreamEvent, conclude, cut, deltas, execute, give_up, hand_over,
  last_events, first_n, usage_of,
}

abbrev uncertain : Request → Request
uncertain r = record r { state = RequestState.uncertain }

-- The request is uncertain, and nothing else has changed.
pub record IsUncertain (t q : ℕ) (r : Request) (db db' : Db) : Type 0 where
  pub found : request_at db' t q ≡ some (uncertain r)
  pub same : db' ≡ record db { requests = db'.requests }

abbrev cost_of : ℤ → ℕ
cost_of (pos n) = n
cost_of (negsuc n) = n

-- A transition that is allowed or changes nothing lets the exception go on.
give_up-ok :
    (t q : ℕ) (events : List StreamEvent) (ending : Ending) (db db' : Db)
    → transition_body t q RequestState.uncertain db ≡ ok (tt, db')
    → give_up t q events ending db ≡ record { events = events; ending = ending; db = db' }
unfolding give_up transition
give_up-ok t q events ending db db' e =
    ap
      (λ r.
        attempt {B = Delivery} (transaction (λ _. r) db)
          (λ _ db'. record { events = events; ending = ending; db = db' })
          (λ x db'. record { events = events; ending = Ending.raised x; db = db' }))
      e

give_up-IsUncertain :
    (t q : ℕ) (events : List StreamEvent) (ending : Ending) (r : Request) (db : Db)
    → request_at db t q ≡ some r
    → r.state ≡ RequestState.dispatched
    → IsUncertain t q r db (give_up t q events ending db).db
      × ((give_up t q events ending db).ending ≡ ending)
unfolding transition_body
give_up-IsUncertain t q events ending r db e sent =
    let db' : Db = record db { requests = update (is_request t q) uncertain db.requests } in
    let eq = give_up-ok t q events ending db db' (ground arith) in
    subst (λ d. IsUncertain t q r db d.db × (d.ending ≡ ending)) (sym eq)
      (
        record {
          found =
              request_at-update t q t q uncertain db.requests (λ x. refl) (λ x. refl) r e
              ∙ ap (λ b. some (if b then uncertain r else r)) (scalar_hit _ db.requests r e);
          same = refl;
        },
        refl,
      )

give_up-final :
    (t q : ℕ) (events : List StreamEvent) (ending : Ending) (r : Request) (db : Db)
    → request_at db t q ≡ some r
    → is_final r.state ≡ true
    → give_up t q events ending db ≡ record { events = events; ending = ending; db = db }
unfolding transition_body
give_up-final t q events ending r db e final = give_up-ok t q events ending db db (ground arith)

module _ (t q : ℕ) (chat : Chat) (contract : Option ℕ) (step : String) (r : Request) where
  abbrev pub response : Response
  response = result q chat contract step (joined (chunks chat).chunks)

  -- The request is completed with the answer to the whole stream and its cost.
  pub record IsAnswered (d : Delivery) : Type 0 where
    pub in_time : (chunks chat).timed_out ≡ false
    pub found : request_at d.db t q ≡ some (finished response.cost_microusd (usage_of response) r)
    pub ending : (d.ending ≡ Ending.finished) ⊎ (d.ending ≡ Ending.cancelled)

  -- The request is uncertain, with all that was reserved for it, and there is no answer.
  pub record IsUnanswered (db : Db) (d : Delivery) : Type 0 where
    pub kept : IsUncertain t q r db d.db
    pub ending : d.ending ≢ Ending.finished

  given_up :
      (events : List StreamEvent) (ending : Ending) (db : Db)
      → request_at db t q ≡ some r
      → r.state ≡ RequestState.dispatched
      → ending ≢ Ending.finished
      → IsAnswered (give_up t q events ending db) ⊎ IsUnanswered db (give_up t q events ending db)
  given_up events ending db e sent other =
      let (kept, same) = give_up-IsUncertain t q events ending r db e sent in
      inr (record { kept = kept; ending = λ f. other (sym same ∙ f) })

  -- After the settlement the database stays, and the ending is no failure.
  hand_over-keeps :
      (gone : Departure) (sent rest : List StreamEvent) (s : Request) (db : Db)
      → request_at db t q ≡ some s
      → is_final s.state ≡ true
      → ((hand_over t q chat contract step gone sent rest db).db ≡ db)
        × (((hand_over t q chat contract step gone sent rest db).ending ≡ Ending.finished)
            ⊎ ((hand_over t q chat contract step gone sent rest db).ending ≡ Ending.cancelled))
  unfolding hand_over
  hand_over-keeps Departure.stays sent rest s db e final = (refl, inl refl)
  hand_over-keeps (Departure.in_stream k) sent rest s db e final = (refl, inl refl)
  hand_over-keeps Departure.at_authentication sent rest s db e final = (refl, inl refl)
  hand_over-keeps Departure.at_capacity sent rest s db e final = (refl, inl refl)
  hand_over-keeps Departure.before_stream sent rest s db e final = (refl, inl refl)
  hand_over-keeps (Departure.at_admission begun) sent rest s db e final = (refl, inl refl)
  hand_over-keeps (Departure.at_release begun) sent rest s db e final = (refl, inl refl)
  hand_over-keeps (Departure.at_dispatch begun) sent rest s db e final = (refl, inl refl)
  hand_over-keeps (Departure.at_end k) sent rest s db e final =
      if_intro
        (λ (d : Delivery).
          (d.db ≡ db) × ((d.ending ≡ Ending.finished) ⊎ (d.ending ≡ Ending.cancelled)))
        (leb k (length rest))
        (λ _.
          let same = give_up-final t q (sent ++ first_n k rest) Ending.cancelled s db e final in
          (ap (λ d. d.db) same, inr (ap (λ d. d.ending) same)))
        (λ _. (refl, inl refl))

  conclude-Ends :
      (stream : Bool) (gone : Departure) (db : Db)
      → request_at db t q ≡ some r
      → r.state ≡ RequestState.dispatched
      → (chunks chat).timed_out ≡ false
      → IsAnswered (conclude t q chat contract step stream (chunks chat).chunks gone db)
        ⊎ IsUnanswered db (conclude t q chat contract step stream (chunks chat).chunks gone db)
  unfolding conclude settle
  conclude-Ends stream gone db e sent in_time = go (settle_body t q (usage_of response) db) refl
    where
      go :
          (out : Result (Unit {0} × Db))
          → settle_body t q (usage_of response) db ≡ out
          → let d : Delivery =
              attempt
                (transaction (λ _. out) db)
                (λ _ db'.
                  hand_over t q chat contract step gone
                    (deltas stream (chunks chat).chunks)
                    (last_events stream response)
                    db')
                (λ x db'. give_up t q (deltas stream (chunks chat).chunks) (Ending.raised x) db') in
            IsAnswered d ⊎ IsUnanswered db d
      go (err x) eq = given_up _ (Ending.raised x) db e sent (λ f. cc)
      go (ok (_, db')) eq =
          let made = settle_body-IsFinished t q r (usage_of response) db db' e (ground arith) eq in
          let (same, ending) = hand_over-keeps gone _ _ _ db' made.found refl in
          inl (record {
            in_time = in_time;
            found =
                ap (λ d. request_at d t q) same
                ∙ made.found
                ∙ ap (λ n. some (finished n (usage_of response) r))
                    (sym (ap cost_of made.reported));
            ending = ending;
          })

  pub execute-Ends :
      (stream : Bool) (gone : Departure) (db : Db)
      → request_at db t q ≡ some r
      → r.state ≡ RequestState.dispatched
      → IsAnswered (execute t q chat contract step stream gone db)
        ⊎ IsUnanswered db (execute t q chat contract step stream gone db)
  unfolding execute
  execute-Ends stream gone db e sent = elim (Option-cases (cut gone (chunks chat).chunks)) [
    | inr (cs, left) ↦
        rw (left, execute) (given_up (deltas stream cs) Ending.cancelled db e sent (λ f. cc))
    | inl stays ↦
        rw (stays, execute)
          (if_intro (λ d. IsAnswered d ⊎ IsUnanswered db d) (chunks chat).timed_out
            (λ late. given_up _ Ending.timed_out db e sent (λ f. cc))
            (λ in_time. conclude-Ends stream gone db e sent in_time))
  ]
