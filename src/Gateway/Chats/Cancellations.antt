-- ===== src/Gateway/Chats/Cancellations.antt =====
-- services/gateway/main.py, `chat`: where a task that is cancelled outside the generator leaves a
-- request.
use quiblyx.Common.{
  Bool, true, false, ◌&&◌, ◌≡◌, refl, Option, none, some, if◌then◌else◌, Result, ok, err,
}
use quiblyx.Model.{RequestState}
use quiblyx.Gateway.Awaits.{
  admission_await, Await, dispatch_await, is_at_capacity, is_before_stream, release_await,
}
use quiblyx.Gateway.Chats.{ChatCall, guard_dispatch}
use quiblyx.Gateway.Streams.{Departure}

abbrev pub is_ok : Result (Unit {0}) → Bool
is_ok (ok _) = true
is_ok (err e) = false

abbrev pub passes : ChatCall → Bool
passes call = is_ok (guard_dispatch call.capacity call.body)

-- In which state a cancellation outside the generator leaves a request that is added, by whether the
-- guards before dispatch pass and whether the answer is a stream.
abbrev pub left_in : Departure → (passed stream : Bool) → Option RequestState
left_in (Departure.at_admission true) passed stream = some RequestState.reserved
left_in Departure.at_capacity passed stream = some RequestState.reserved
left_in (Departure.at_release false) false stream = some RequestState.reserved
left_in (Departure.at_release true) false stream = some RequestState.released
left_in (Departure.at_dispatch false) true stream = some RequestState.reserved
left_in (Departure.at_dispatch true) true stream = some RequestState.dispatched
left_in Departure.before_stream true true = some RequestState.dispatched
left_in gone passed stream = none

abbrev pub left : ChatCall → Option RequestState
left call = left_in call.departure (passes call) call.body.stream

-- Where a thread leaves the request: as it was, or in the state that the thread's call gives it.
abbrev pub after_await : Await → (kept : Option RequestState) → RequestState → Option RequestState
after_await Await.answered kept done = kept
after_await Await.abandoned kept done = some done
after_await Await.unstarted kept done = some RequestState.reserved

pub left_in-release :
    (gone : Departure) (stream : Bool)
    → admission_await gone ≡ Await.answered
    → is_at_capacity gone ≡ false
    → left_in gone false stream ≡ after_await (release_await gone) none RequestState.released
left_in-release Departure.stays stream admitted away = refl
left_in-release Departure.at_authentication stream admitted away = refl
left_in-release Departure.at_capacity stream admitted away = absurd (cc away)
left_in-release Departure.before_stream stream admitted away = refl
left_in-release (Departure.at_admission false) stream admitted away = refl
left_in-release (Departure.at_admission true) stream admitted away = absurd (cc admitted)
left_in-release (Departure.at_release false) stream admitted away = refl
left_in-release (Departure.at_release true) stream admitted away = refl
left_in-release (Departure.at_dispatch false) stream admitted away = refl
left_in-release (Departure.at_dispatch true) stream admitted away = refl
left_in-release (Departure.in_stream k) stream admitted away = refl
left_in-release (Departure.at_end k) stream admitted away = refl

-- A stream that is never started leaves the request dispatched.
abbrev pub unread : Departure → (stream : Bool) → Option RequestState
unread gone stream = if stream && is_before_stream gone then some RequestState.dispatched else none

pub left_in-dispatch :
    (gone : Departure) (stream : Bool)
    → admission_await gone ≡ Await.answered
    → is_at_capacity gone ≡ false
    → left_in gone true stream
      ≡ after_await (dispatch_await gone) (unread gone stream) RequestState.dispatched
left_in-dispatch Departure.stays true admitted away = refl
left_in-dispatch Departure.stays false admitted away = refl
left_in-dispatch Departure.at_authentication true admitted away = refl
left_in-dispatch Departure.at_authentication false admitted away = refl
left_in-dispatch Departure.at_capacity stream admitted away = absurd (cc away)
left_in-dispatch Departure.before_stream true admitted away = refl
left_in-dispatch Departure.before_stream false admitted away = refl
left_in-dispatch (Departure.at_admission false) true admitted away = refl
left_in-dispatch (Departure.at_admission false) false admitted away = refl
left_in-dispatch (Departure.at_admission true) stream admitted away = absurd (cc admitted)
left_in-dispatch (Departure.at_release false) true admitted away = refl
left_in-dispatch (Departure.at_release false) false admitted away = refl
left_in-dispatch (Departure.at_release true) true admitted away = refl
left_in-dispatch (Departure.at_release true) false admitted away = refl
left_in-dispatch (Departure.at_dispatch false) true admitted away = refl
left_in-dispatch (Departure.at_dispatch false) false admitted away = refl
left_in-dispatch (Departure.at_dispatch true) true admitted away = refl
left_in-dispatch (Departure.at_dispatch true) false admitted away = refl
left_in-dispatch (Departure.in_stream k) true admitted away = refl
left_in-dispatch (Departure.in_stream k) false admitted away = refl
left_in-dispatch (Departure.at_end k) true admitted away = refl
left_in-dispatch (Departure.at_end k) false admitted away = refl

pub left_in-capacity :
    (gone : Departure) (passed stream : Bool)
    → is_at_capacity gone ≡ true
    → left_in gone passed stream ≡ some RequestState.reserved
left_in-capacity Departure.at_capacity passed stream waiting = refl
left_in-capacity Departure.stays passed stream waiting = absurd (cc waiting)
left_in-capacity Departure.at_authentication passed stream waiting = absurd (cc waiting)
left_in-capacity Departure.before_stream passed stream waiting = absurd (cc waiting)
left_in-capacity (Departure.at_admission false) passed stream waiting = absurd (cc waiting)
left_in-capacity (Departure.at_admission true) passed stream waiting = absurd (cc waiting)
left_in-capacity (Departure.at_release false) passed stream waiting = absurd (cc waiting)
left_in-capacity (Departure.at_release true) passed stream waiting = absurd (cc waiting)
left_in-capacity (Departure.at_dispatch false) passed stream waiting = absurd (cc waiting)
left_in-capacity (Departure.at_dispatch true) passed stream waiting = absurd (cc waiting)
left_in-capacity (Departure.in_stream k) passed stream waiting = absurd (cc waiting)
left_in-capacity (Departure.at_end k) passed stream waiting = absurd (cc waiting)
