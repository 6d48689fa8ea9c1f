-- ===== src/Accounting/Calls.antt =====
-- The public functions of packages/domain/accounting.py as calls on the database, and a history
-- of calls. A history is sequential: each call is one transaction, which ends before the next one
-- starts. Calls that overlap are such a history where the locks order them before they read what
-- they decide on; two settlements of one contract step are not ordered so.
use quiblyx.Common.{ℕ, ◌≡◌, false, contains, map, Option, List, [], ◌∷◌, String, ℤ}
use quiblyx.Model.{Db, RequestState, ContractState}
use quiblyx.Chat.{Payload}
use quiblyx.Accounting.Clock.{Clock}
use quiblyx.Accounting.Admission.{admit}
use quiblyx.Accounting.Settlement.{Usage, transition}
use quiblyx.Accounting.Contracts.{Claims, Step, admit_contract}
use quiblyx.Accounting.Creation.{Envelope, create_spend_contract}
use quiblyx.Accounting.Closing.{settle, close_spend_contract}

pub data Call : Type 0 where
  admits :
      (clock : Clock) (uid tenant key_id application_id : ℕ) (idem : String) (payload : Payload)
      (bound : ℤ) (token_bound : Option ℕ)
      → Call
  transitions : (tenant request_id : ℕ) (state : RequestState) → Call
  settles : (tenant request_id : ℕ) (usage : Usage) → Call
  creates_contract :
      (clock : Clock) (uid tenant application_id key_id : ℕ) (envelope : Envelope) → Call
  admits_step :
      (clock : Clock) (uid : ℕ) (claims : Claims) (idem : String) (payload : Payload) (step : Step)
      → Call
  closes_contract : (clock : Clock) (tenant contract_id : ℕ) (state : ContractState) → Call

module _ (payload_digest : Payload → String) where
  -- The database after a call, whatever the call returns.
  unfoldable pub after : Call → Db → Db
  after (admits clock uid t k a idem p b tb) db =
      (admit payload_digest clock uid t k a idem p b tb db).1
  after (transitions t r state) db = (transition t r state db).1
  after (settles t r usage) db = (settle t r usage db).1
  after (creates_contract clock uid t a k e) db = (create_spend_contract clock uid t a k e db).1
  after (admits_step clock uid claims idem p st) db =
      (admit_contract payload_digest clock uid claims idem p st db).1
  after (closes_contract clock t c state) db = (close_spend_contract clock t c state db).1

  unfoldable pub run : List Call → Db → Db
  unfolding after
  run [] db = db
  run (c ∷ cs) db = run cs (after c db)

-- The identifier that a call draws is not in use: `uuid4` gives a new one each time.
abbrev pub IsFreshCall : Call → Db → Type 0
IsFreshCall (admits clock uid t k a idem p b tb) db =
    contains uid (map (λ r. r.id) db.requests) ≡ false
IsFreshCall (creates_contract clock uid t a k e) db =
    contains uid (map (λ c. c.id) db.contracts) ≡ false
IsFreshCall (admits_step clock uid claims idem p st) db =
    contains uid (map (λ r. r.id) db.requests) ≡ false
IsFreshCall _ db = Unit

abbrev pub AreFreshCalls : (Payload → String) → List Call → Db → Type 0
AreFreshCalls digest [] db = Unit
AreFreshCalls digest (c ∷ cs) db = IsFreshCall c db × AreFreshCalls digest cs (after digest c db)
