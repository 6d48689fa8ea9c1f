-- ===== src/Gateway/Awaits.antt =====
-- services/gateway/main.py, `chat`: what the handler returns, and its awaits of threads.
use quiblyx.Common.{ℕ, Bool, true, false, Option, List, Result, ok}
use quiblyx.Model.{and_then, Db, Response}
use quiblyx.Gateway.Streams.{Departure, Ending, StreamEvent}

-- What the handler returns: an answer, a stream with its headers, or nothing if its task was
-- cancelled. `unavailable` is status 502 with the request's identifier as detail.
pub data Reply : Type 0 where
  completion : Response → Reply
  streaming : (rid : ℕ) (contract : Option ℕ) (events : List StreamEvent) (ending : Ending) → Reply
  unavailable : (rid : ℕ) → Reply
  nothing : Reply

-- How `await asyncio.to_thread(f)` ends: with what `f` gives; or by a cancellation, after which a
-- thread that has begun runs on, and one that has not never does.
pub data Await : Type 0 where
  answered abandoned unstarted : Await

abbrev pub left_at : (begun : Bool) → Await
left_at true = Await.abandoned
left_at false = Await.unstarted

abbrev pub admission_await : Departure → Await
admission_await (Departure.at_admission begun) = left_at begun
admission_await _ = Await.answered

abbrev pub release_await : Departure → Await
release_await (Departure.at_release begun) = left_at begun
release_await _ = Await.answered

abbrev pub dispatch_await : Departure → Await
dispatch_await (Departure.at_dispatch begun) = left_at begun
dispatch_await _ = Await.answered

abbrev pub is_at_authentication : Departure → Bool
is_at_authentication Departure.at_authentication = true
is_at_authentication _ = false

abbrev pub is_at_capacity : Departure → Bool
is_at_capacity Departure.at_capacity = true
is_at_capacity _ = false

abbrev pub is_before_stream : Departure → Bool
is_before_stream Departure.before_stream = true
is_before_stream _ = false

-- What a thread leaves, and what the handler does after it. `CancelledError` is caught nowhere
-- outside the generator.
abbrev pub to_thread {ℓ} :
    {A : Type ℓ} → Await → Result A × Db → Db → (A → Db → Result Reply × Db) → Result Reply × Db
to_thread Await.answered out db next = and_then out next
to_thread Await.abandoned out db next = (ok Reply.nothing, out.1)
to_thread Await.unstarted out db next = (ok Reply.nothing, db)
