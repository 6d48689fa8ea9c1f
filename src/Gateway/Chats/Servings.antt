-- ===== src/Gateway/Chats/Servings.antt =====
-- services/gateway/main.py, `chat`, after its admission: how the request that was added ends.
use quiblyx.Common.{
  true, false, sym, ℕ, ◌≤◌, ◌≡◌, refl, ◌∙◌, ap, subst, ◌⊎◌, inl, inr, Option, none, some, arith,
  if◌then◌else◌, if_intro, scalar_hit, update, Result, ok, err, Error, Result-cases,
}
use mathlib.Core.Option.{some-injective}
use quiblyx.Model.{Db, Request, RequestState, transaction}
use quiblyx.Accounting.Settlement.{finished, is_request, request_at, transition, transition_body}
use quiblyx.Accounting.Settlement.Life.{request_at-update}
use quiblyx.Accounting.Closing.{settle, settle_body}
use quiblyx.Accounting.Closing.Completion.{settle_body-IsFinished}
use quiblyx.Provider.{bound}
use quiblyx.Provider.Prices.{chunks-IsCovered}
use quiblyx.Gateway.Awaits.{
  admission_await, Await, Reply, dispatch_await, is_at_capacity, is_before_stream, release_await,
  to_thread,
}
use quiblyx.Gateway.Chats.{ChatCall, generate, guard_dispatch, idem_of, not_sent, serve}
use quiblyx.Gateway.Streams.{execute, usage_of}
use quiblyx.Gateway.Chats.Endings.{execute-Ends}
use quiblyx.Gateway.Chats.Admissions.{IsReserved}
use quiblyx.Gateway.Chats.Cancellations.{
  after_await, is_ok, left, left_in, left_in-capacity, left_in-dispatch, left_in-release, passes,
  unread,
}

-- What has become of the request that the handler added.
pub record IsServed (call : ChatCall) (out : Result Reply × Db) : Type 0 where
  pub tenant : ℕ
  pub row : Request
  pub found : request_at out.1 tenant call.uid ≡ some row
  pub same_key : row.idempotency_key ≡ idem_of call
  -- What it cost is known only within its bound.
  pub within_bound : (n : ℕ) → row.cost ≡ some n → n ≤ bound call.body
  pub abandoned :
      (s : RequestState) → left call ≡ some s → (row.state ≡ s) × (out.0 ≡ ok Reply.nothing)
  pub sent :
      left call ≡ none
      → guard_dispatch call.capacity call.body ≡ ok tt
      → (row.state ≡ RequestState.completed) ⊎ (row.state ≡ RequestState.uncertain)
  pub unsent :
      (e : Error)
      → left call ≡ none
      → guard_dispatch call.capacity call.body ≡ err e
      → (row.state ≡ RequestState.released) × (out.0 ≡ err e)

abbrev dispatched : Request → Request
dispatched r = record r { state = RequestState.dispatched }

-- A reserved request can be dispatched.
transition-eq-ok :
    (t q : ℕ) (r : Request) (db : Db)
    → request_at db t q ≡ some r
    → r.state ≡ RequestState.reserved
    → (db' : Db) × (transition t q RequestState.dispatched db ≡ (ok tt, db'))
      × (request_at db' t q ≡ some (dispatched r))
unfolding transition transition_body
transition-eq-ok t q r db e waiting = (
  record db { requests = update (is_request t q) dispatched db.requests },
  ground arith,
  request_at-update t q t q dispatched db.requests (λ x. refl) (λ x. refl) r e
      ∙ ap (λ b. some (if b then dispatched r else r)) (scalar_hit _ db.requests r e),
)

module _ (call : ChatCall) (tenant : ℕ) (r : Request) (c : Option ℕ) where
  -- A task that is cancelled leaves the row in the state in which it is.
  pub left-IsServed :
      (row : Request) (db : Db)
      → request_at db tenant call.uid ≡ some row
      → row.idempotency_key ≡ idem_of call
      → ((n : ℕ) → row.cost ≡ some n → n ≤ bound call.body)
      → left call ≡ some row.state
      → IsServed call (ok Reply.nothing, db)
  left-IsServed row db found key within gone = record {
    tenant = tenant;
    row = row;
    found = found;
    same_key = key;
    within_bound = within;
    abandoned = λ s h. (some-injective row.state s (sym gone ∙ h), refl);
    sent = λ h. absurd (cc (h, gone));
    unsent = λ e h. absurd (cc (h, gone));
  }

  -- A request that is not sent is released: its settlement is not refused.
  unsent-IsServed :
      (e : Error) (w : Await) (db : Db) (out : Result (Unit {0} × Db))
      → IsReserved call tenant r db
      → guard_dispatch call.capacity call.body ≡ err e
      → left call ≡ after_await w none RequestState.released
      → settle_body tenant call.uid not_sent db ≡ out
      → IsServed call (to_thread w (transaction (λ _. out) db) db (λ _ db'. (err e, db')))
  unsent-IsServed e Await.unstarted db out new guard gone eq =
      left-IsServed r db new.found new.same_key (λ n h. absurd (cc (h, new.uncharged)))
        (gone ∙ ap some (sym new.state))
  unsent-IsServed e w db (err x) new guard gone eq = absurd (ground (arith, new.releasable.1))
  unsent-IsServed e Await.abandoned db (ok (_, db')) new guard gone eq =
      let made =
        settle_body-IsFinished tenant call.uid r not_sent db db' new.found
          (ground (arith, new.state)) eq in
      left-IsServed (finished made.cost not_sent r) db' made.found new.same_key
        (λ n h. ground (arith, h, made.reported)) gone
  unsent-IsServed e Await.answered db (ok (_, db')) new guard gone eq =
      let made =
        settle_body-IsFinished tenant call.uid r not_sent db db' new.found
          (ground (arith, new.state)) eq in
      record {
        tenant = tenant;
        row = finished made.cost not_sent r;
        found = made.found;
        same_key = new.same_key;
        within_bound = λ n h. ground (arith, h, made.reported);
        abandoned = λ s h. absurd (cc (h, gone));
        sent = λ _ h. absurd (cc (h, guard));
        unsent = λ f _ h. (refl, cc (h, guard));
      }

  -- One that is sent is completed or uncertain.
  sent-IsServed :
      (db0 db : Db) (reply : Result Reply)
      → IsReserved call tenant r db0
      → guard_dispatch call.capacity call.body ≡ ok tt
      → left call ≡ none
      → request_at db tenant call.uid ≡ some (dispatched r)
      → IsServed call (
        reply,
        (execute tenant call.uid call.body c call.contract_step call.body.stream call.departure
            db).db,
      )
  sent-IsServed db0 db reply new guard stays e =
      elim (execute-Ends tenant call.uid call.body c call.contract_step (dispatched r)
        call.body.stream call.departure db e refl) [
          | inl answered ↦ record {
            tenant = tenant;
            row = finished _ (usage_of _) (dispatched r);
            found = answered.found;
            same_key = new.same_key;
            within_bound = λ n h.
                subst (λ m. m ≤ bound call.body) (some-injective _ n h)
                  (chunks-IsCovered call.uid call.body c call.contract_step).within_cost;
            abandoned = λ s h. absurd (cc (h, stays));
            sent = λ _ h. inl refl;
            unsent = λ f _ h. absurd (cc (h, guard));
          }
          | inr lost ↦ record {
            tenant = tenant;
            row = record r { state = RequestState.uncertain };
            found = lost.kept.found;
            same_key = new.same_key;
            within_bound = λ n h. absurd (cc (h, new.uncharged));
            abandoned = λ s h. absurd (cc (h, stays));
            sent = λ _ h. inr refl;
            unsent = λ f _ h. absurd (cc (h, guard));
          }
        ]

  generate-IsServed :
      (db0 db : Db)
      → IsReserved call tenant r db0
      → guard_dispatch call.capacity call.body ≡ ok tt
      → left call ≡ unread call.departure call.body.stream
      → request_at db tenant call.uid ≡ some (dispatched r)
      → IsServed call (generate call tenant call.uid c db)
  unfolding generate
  generate-IsServed db0 db new guard gone e =
      if_intro (λ out. IsServed call out) call.body.stream
        (λ streams.
          if_intro (λ out. IsServed call out) (is_before_stream call.departure)
            (λ unread_at.
              left-IsServed (dispatched r) db e new.same_key (λ n h. absurd (cc (h, new.uncharged)))
                (gone ∙ ground arith))
            (λ read. sent-IsServed db0 db _ new guard (gone ∙ ground arith) e))
        (λ whole. sent-IsServed db0 db _ new guard (gone ∙ ground arith) e)

  dispatch-IsServed :
      (w : Await) (db db' : Db)
      → IsReserved call tenant r db
      → guard_dispatch call.capacity call.body ≡ ok tt
      → left call ≡ after_await w (unread call.departure call.body.stream) RequestState.dispatched
      → request_at db' tenant call.uid ≡ some (dispatched r)
      → IsServed call
          (to_thread {A = Unit {0}} w (ok tt, db') db (λ _ d. generate call tenant call.uid c d))
  dispatch-IsServed Await.unstarted db db' new guard gone e =
      left-IsServed r db new.found new.same_key (λ n h. absurd (cc (h, new.uncharged)))
        (gone ∙ ap some (sym new.state))
  dispatch-IsServed Await.abandoned db db' new guard gone e =
      left-IsServed (dispatched r) db' e new.same_key (λ n h. absurd (cc (h, new.uncharged))) gone
  dispatch-IsServed Await.answered db db' new guard gone e =
      generate-IsServed db db' new guard gone e

  pub serve-IsServed :
      (db : Db)
      → IsReserved call tenant r db
      → admission_await call.departure ≡ Await.answered
      → IsServed call (serve call tenant call.uid c db)
  unfolding serve settle
  serve-IsServed db new admitted =
      if_intro (λ out. IsServed call out) (is_at_capacity call.departure)
        (λ waiting.
          left-IsServed r db new.found new.same_key (λ n h. absurd (cc (h, new.uncharged)))
            (at_capacity waiting ∙ ap some (sym new.state)))
        (λ away. elim (Result-cases (guard_dispatch call.capacity call.body)) [
          | inl (e, refused) ↦
              let gone = left_in-release call.departure call.body.stream admitted away in
              rw refused (
                unsent-IsServed e (release_await call.departure) db _ new refused
                  (left-refused e refused ∙ gone) refl)
          | inr (_, passed) ↦
              let (db', done, found) = transition-eq-ok tenant call.uid r db new.found new.state in
              let gone = left_in-dispatch call.departure call.body.stream admitted away in
              rw (passed, done)
                (dispatch-IsServed (dispatch_await call.departure) db db' new passed
                  (left-passed passed ∙ gone) found)
        ])
    where
      at_capacity : is_at_capacity call.departure ≡ true → left call ≡ some RequestState.reserved
      at_capacity waiting = left_in-capacity call.departure (passes call) call.body.stream waiting

      left-refused :
          (e : Error)
          → guard_dispatch call.capacity call.body ≡ err e
          → left call ≡ left_in call.departure false call.body.stream
      left-refused e refused = ap (λ g. left_in call.departure (is_ok g) call.body.stream) refused

      left-passed :
          guard_dispatch call.capacity call.body ≡ ok tt
          → left call ≡ left_in call.departure true call.body.stream
      left-passed passed = ap (λ g. left_in call.departure (is_ok g) call.body.stream) passed
