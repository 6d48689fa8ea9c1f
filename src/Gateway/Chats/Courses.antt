-- ===== src/Gateway/Chats/Courses.antt =====
-- services/gateway/main.py, `chat`, as a whole: how a request can end.
use quiblyx.Common.{
  map, contains, Distinct, Bool, true, false, sym, ℕ, ◌≡◌, refl, ◌∙◌, ap, ◌⊎◌, inl, inr, Option,
  some, if_intro, String, Result, ok, err, Error, Result-cases,
}
use quiblyx.Model.{and_then, Db, Response}
use quiblyx.Chat.{Payload}
use quiblyx.Accounting.Contracts.{Claims}
use quiblyx.Gateway.Authentication.{authenticate}
use quiblyx.Gateway.Awaits.{admission_await, Await, Reply, is_at_authentication, to_thread}
use quiblyx.Gateway.Chats.{admit_call, ChatCall, chat, contract_claims, proceed}
use quiblyx.Gateway.Streams.{Departure}
use quiblyx.Gateway.Chats.Admissions.{Admits, Outcome, admit_call-Admits}
use quiblyx.Gateway.Chats.Cancellations.{left_in, passes}
use quiblyx.Gateway.Chats.Servings.{IsServed, left-IsServed, serve-IsServed}

-- An admission that was refused or answered by a stored response is what the caller gets.
abbrev pub IsTurnedAway : Outcome → Result Reply × Db → Type 0
IsTurnedAway admission reply =
    ((e : Error) × (admission.0 ≡ err e) × (reply.0 ≡ err e))
    ⊎ ((q : ℕ) × (response : Response) × (c : Option ℕ) × (admission.0 ≡ ok (q, some response, c))
        × (reply.0 ≡ ok (Reply.completion response)))

-- The task was cancelled before a request was added.
abbrev pub IsCancelled : ChatCall → Result Reply × Db → Type 0
IsCancelled call reply =
    ((call.departure ≡ Departure.at_authentication)
      ⊎ ((begun : Bool) × (call.departure ≡ Departure.at_admission begun)))
    × (reply.0 ≡ ok Reply.nothing)

admission_await-answered :
    (gone : Departure)
    → (admission_await gone ≡ Await.answered)
      ⊎ ((admission_await gone ≡ Await.abandoned) × (gone ≡ Departure.at_admission true))
      ⊎ ((admission_await gone ≡ Await.unstarted) × (gone ≡ Departure.at_admission false))
admission_await-answered Departure.stays = inl refl
admission_await-answered Departure.at_authentication = inl refl
admission_await-answered Departure.at_capacity = inl refl
admission_await-answered Departure.before_stream = inl refl
admission_await-answered (Departure.at_admission true) = inr (inl (refl, refl))
admission_await-answered (Departure.at_admission false) = inr (inr (refl, refl))
admission_await-answered (Departure.at_release begun) = inl refl
admission_await-answered (Departure.at_dispatch begun) = inl refl
admission_await-answered (Departure.in_stream k) = inl refl
admission_await-answered (Departure.at_end k) = inl refl

module _ (call : ChatCall) (tenant : ℕ) (db : Db) where
  -- The handler goes on with what admission gives.
  answered-IsServed :
      (out : Outcome)
      → Admits call tenant db out
      → admission_await call.departure ≡ Await.answered
      → let reply : Result Reply × Db = and_then out (proceed call tenant) in
        ((reply.1 ≡ db) × IsTurnedAway out reply) ⊎ IsServed call reply
  unfolding proceed
  answered-IsServed _ (Admits.refused e) admitted = inl (refl, inl (e, refl, refl))
  answered-IsServed _ (Admits.replayed q response c) admitted =
      inl (refl, inr (q, response, c, refl, refl))
  answered-IsServed _ (Admits.adds r c db' new) admitted =
      inr (serve-IsServed call tenant r c db' new admitted)

  -- A thread that runs on after a cancellation leaves a new request reserved.
  abandoned-IsServed :
      (out : Outcome)
      → Admits call tenant db out
      → call.departure ≡ Departure.at_admission true
      → (out.1 ≡ db) ⊎ IsServed call (ok Reply.nothing, out.1)
  abandoned-IsServed _ (Admits.refused e) gone = inl refl
  abandoned-IsServed _ (Admits.replayed q response c) gone = inl refl
  abandoned-IsServed _ (Admits.adds r c db' new) gone = inr (
      left-IsServed call tenant r c r db' new.found new.same_key
        (λ n h. absurd (cc (h, new.uncharged)))
        (ap (λ d. left_in d (passes call) call.body.stream) gone ∙ ap some (sym new.state)))

module _ (payload_digest : Payload → String) (decode : String → Option Claims)
    (digest : String → String) (call : ChatCall) (db : Db) where
  -- What admission gives to a principal whose contract, if it presents one, is accepted.
  abbrev pub admission : (tenant key_id application_id : ℕ) → Option Claims → Outcome
  admission tenant key_id application_id claims =
      admit_call payload_digest call tenant key_id application_id claims db

  -- The handler wrote nothing, and returned what authentication, the check of the contract's claims
  -- or admission gave, or nothing after a cancellation.
  pub record IsUnserved (out : Result Reply × Db) : Type 0 where
    pub same : out.1 ≡ db
    pub reason :
        IsCancelled call out
        ⊎ ((e : Error) × (authenticate digest db call.authorization ≡ err e) × (out.0 ≡ err e))
        ⊎ ((tenant : ℕ) × (key_id : ℕ) × (application_id : ℕ) × (authenticate digest db
                call.authorization
              ≡ ok (tenant, key_id, application_id))
            × (((e : Error) × (contract_claims decode call tenant key_id application_id ≡ err e)
                  × (out.0 ≡ err e))
                ⊎ ((claims : Option Claims) × (contract_claims decode call tenant key_id
                        application_id
                      ≡ ok claims)
                    × IsTurnedAway (admission tenant key_id application_id claims) out)))

  admitted-IsServed :
      (tenant key_id application_id : ℕ) (claims : Option Claims)
      → authenticate digest db call.authorization ≡ ok (tenant, key_id, application_id)
      → contract_claims decode call tenant key_id application_id ≡ ok claims
      → Admits call tenant db (admission tenant key_id application_id claims)
      → let reply : Result Reply × Db =
          to_thread
            (admission_await call.departure)
            (admission tenant key_id application_id claims)
            db
            (proceed call tenant) in
        IsUnserved reply ⊎ IsServed call reply
  admitted-IsServed tenant key_id application_id claims known accepted admits =
      elim (admission_await-answered call.departure) [
        | inl admitted ↦ rw admitted (elim (answered-IsServed call tenant db _ admits admitted) [
          | inr served ↦ inr served
          | inl (same, away) ↦ inl (record {
            same = same;
            reason =
                inr (inr (tenant, key_id, application_id, known, inr (claims, accepted, away)));
          })
        ])
        | inr (inl (waits, gone)) ↦
            rw waits (elim (abandoned-IsServed call tenant db _ admits gone) [
              | inr served ↦ inr served
              | inl same ↦ inl (record { same = same; reason = inl (inr (true, gone), refl) })
            ])
        | inr (inr (waits, gone)) ↦
            rw waits (inl (record { same = refl; reason = inl (inr (false, gone), refl) }))
      ]

  -- A call of the handler leaves the database as it was and returns the refusal of the key, of the
  -- contract's claims or of the admission, the stored answer of a replay, or nothing after a
  -- cancellation; or it has added a request, whose cost, if it has one, is within the bound that was
  -- reserved. If the task is not cancelled outside the generator, that request is completed or
  -- uncertain if the guards before dispatch pass, and if they refuse, it is released and the caller
  -- gets the refusal. If it is cancelled there, the request stays in the state that it has then:
  -- reserved at the await of the admission or of the counter, or before the thread of the release or
  -- of the dispatch has begun; released or dispatched after that; and dispatched if a stream is never
  -- started. Budgets must have distinct identifiers, and the identifier that the request draws must
  -- have no reservation.
  pub chat-Ends :
      Distinct (map (λ b. b.id) db.budgets)
      → contains call.uid (map (λ r. r.request_id) db.reservations) ≡ false
      → IsUnserved (chat payload_digest decode digest call db)
        ⊎ IsServed call (chat payload_digest decode digest call db)
  unfolding chat
  chat-Ends distinct unused =
      if_intro (λ out. IsUnserved out ⊎ IsServed call out) (is_at_authentication call.departure)
        (λ gone. inl (record {
          same = refl;
          reason = inl (inl (at_authentication call.departure gone), refl);
        }))
        (λ _. elim (Result-cases (authenticate digest db call.authorization)) [
          | inl (e, refused) ↦
              rw refused (inl (record { same = refl; reason = inr (inl (e, refused, refl)) }))
          | inr ((tenant, key_id, application_id), known) ↦
              rw known
                (elim (Result-cases (contract_claims decode call tenant key_id application_id)) [
                  | inl (e, refused) ↦ rw refused (
                      inl (record {
                        same = refl;
                        reason =
                            inr
                              (inr (tenant, key_id, application_id, known, inl (e, refused, refl)));
                      }))
                  | inr (claims, accepted) ↦ rw accepted (
                      admitted-IsServed tenant key_id application_id claims known accepted (
                        admit_call-Admits payload_digest call tenant key_id application_id db
                          (record { distinct = distinct; unused = unused }) decode claims accepted))
                ])
        ])
    where
      at_authentication :
          (gone : Departure) → is_at_authentication gone ≡ true → gone ≡ Departure.at_authentication
      at_authentication Departure.at_authentication e = refl
      at_authentication Departure.stays e = absurd (cc e)
      at_authentication Departure.at_capacity e = absurd (cc e)
      at_authentication Departure.before_stream e = absurd (cc e)
      at_authentication (Departure.at_admission begun) e = absurd (cc e)
      at_authentication (Departure.at_release begun) e = absurd (cc e)
      at_authentication (Departure.at_dispatch begun) e = absurd (cc e)
      at_authentication (Departure.in_stream k) e = absurd (cc e)
      at_authentication (Departure.at_end k) e = absurd (cc e)
