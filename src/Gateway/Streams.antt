-- ===== src/Gateway/Streams.antt =====
-- services/gateway/main.py, the generator `execute` of `chat`: the provider's stream, its settlement,
-- and what follows a failure or a cancellation. The place of a cancellation is an input. The
-- generator runs on the database that dispatch leaves.
use quiblyx.Common.{
  ℕ, zero, suc, Bool, true, false, Option, none, some, List, [], ◌∷◌, ◌++◌, map, String, leb,
  if◌then◌else◌, length, pos, Error, Char,
}
use quiblyx.Model.{attempt, Db, RequestState, Response}
use quiblyx.Chat.{Chat}
use quiblyx.Accounting.Settlement.{Usage, transition}
use quiblyx.Accounting.Closing.{settle}
use quiblyx.Provider.{chunks, joined}
use quiblyx.Gateway.{result}

-- Where the task is cancelled: nowhere; at an await of the handler before the generator starts,
-- which may leave a thread that has begun to run on; between the handler's return and the start of a
-- stream; after so many chunks; or after so many of the last events. A place that is not reached
-- cancels nothing.
pub data Departure : Type 0 where
  stays at_authentication at_capacity before_stream : Departure
  at_admission at_release at_dispatch : (begun : Bool) → Departure
  in_stream at_end : ℕ → Departure

-- What the generator yields: events of a stream, or one answer.
pub data StreamEvent : Type 0 where
  delta : Char → StreamEvent
  usage : (prompt completion total : ℕ) → StreamEvent
  done : StreamEvent
  whole : Response → StreamEvent

-- How the generator ends; `timed_out` is the `TimeoutError` of the provider.
pub data Ending : Type 0 where
  finished timed_out cancelled : Ending
  raised : Error → Ending

pub record Delivery : Type 0 where
  pub events : List StreamEvent
  pub ending : Ending
  pub db : Db

abbrev pub first_n {ℓ} : {A : Type ℓ} → ℕ → List A → List A
first_n zero xs = []
first_n (suc n) [] = []
first_n (suc n) (x ∷ xs) = x ∷ first_n n xs

-- The chunks that are handed on before the task is cancelled in their midst, if it is.
abbrev pub cut : Departure → List Char → Option (List Char)
cut (Departure.in_stream k) cs = if leb k (length cs) then some (first_n k cs) else none
cut _ cs = none

-- What a completed call reports.
abbrev pub usage_of : Response → Usage
usage_of response = record {
  cost = pos response.cost_microusd;
  input_tokens = pos response.prompt_tokens;
  output_tokens = pos response.completion_tokens;
  response = some response;
  pre_dispatch = false;
}

abbrev pub deltas : Bool → List Char → List StreamEvent
deltas stream cs = if stream then map StreamEvent.delta cs else []

-- What follows the chunks.
abbrev pub last_events : Bool → Response → List StreamEvent
last_events true r =
    StreamEvent.usage r.prompt_tokens r.completion_tokens r.total_tokens ∷ StreamEvent.done ∷ []
last_events false r = StreamEvent.whole r ∷ []

-- `except BaseException`: the request becomes uncertain, and the exception goes on.
unfoldable pub give_up : (tenant rid : ℕ) → List StreamEvent → Ending → Db → Delivery
unfolding transition
give_up tenant rid events ending db =
    attempt (transition tenant rid RequestState.uncertain db)
      (λ _ db'. record { events = events; ending = ending; db = db' })
      (λ e db'. record { events = events; ending = Ending.raised e; db = db' })

module _ (tenant rid : ℕ) (chat : Chat) (contract : Option ℕ) (step : String) where
  -- The events after the settlement; a task that is cancelled there finds a final request.
  unfoldable pub hand_over : Departure → List StreamEvent → List StreamEvent → Db → Delivery
  unfolding give_up
  hand_over (Departure.at_end k) sent rest db =
      if leb k (length rest)
      then give_up tenant rid (sent ++ first_n k rest) Ending.cancelled db
      else record { events = sent ++ rest; ending = Ending.finished; db = db }
  hand_over _ sent rest db = record { events = sent ++ rest; ending = Ending.finished; db = db }

  -- All chunks have come: the answer is settled and handed over.
  unfoldable pub conclude : Bool → List Char → Departure → Db → Delivery
  unfolding settle hand_over give_up
  conclude stream cs gone db =
      let response = result rid chat contract step (joined cs) in
      let sent = deltas stream cs in
      attempt (settle tenant rid (usage_of response) db)
        (λ _ db'. hand_over gone sent (last_events stream response) db')
        (λ e db'. give_up tenant rid sent (Ending.raised e) db')

  unfoldable pub execute : Bool → Departure → Db → Delivery
  unfolding conclude chunks give_up
  execute stream gone db = elim (cut gone (chunks chat).chunks) [
    | some cs ↦ give_up tenant rid (deltas stream cs) Ending.cancelled db
    | none ↦
        if (chunks chat).timed_out
        then give_up tenant rid (deltas stream (chunks chat).chunks) Ending.timed_out db
        else conclude stream (chunks chat).chunks gone db
  ]
