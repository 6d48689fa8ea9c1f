-- ===== src/Worker.antt =====
-- services/worker/main.py, `drain`: the outbox is read tenant by tenant, and threshold events are
-- mailed. The SMTP server is a parameter: whether it takes a mail or raises an OSError.
pub mod Deliveries
pub mod Backlog
use quiblyx.Common.{
  ℕ, zero, suc, Bool, true, false, not, ◌&&◌, Option, none, some, List, [], ◌∷◌, ◌++◌, map, ◌==◌,
  if◌then◌else◌, select,
}
use quiblyx.Model.{Db, Event, EventPayload, budget_threshold}

-- What tells mails apart: the tenant and the event's identifier in the text, the identifier in the
-- Message-ID, and the threshold in the subject. The rest of a mail is constant.
pub record Mail : Type 0 where
  pub event : ℕ
  pub tenant : ℕ
  pub threshold : ℕ

-- Only `budget.threshold` events are mailed; any other kind counts as delivered.
abbrev pub mail_of : Event → Option Mail
mail_of e = elim e.payload [
  | budget_threshold budget_id threshold unit period ↦
      some (record { event = e.id; tenant = e.tenant_id; threshold = threshold })
  | _ ↦ none
]

abbrev pub batch : ℕ
batch = 100

-- `Event.tenant_id == tenant, Event.delivered.is_(False)`, less the rows that another drain has
-- locked.
abbrev pub is_pending : (Event → Bool) → ℕ → Event → Bool
is_pending locked tenant e = (e.tenant_id == tenant) && not e.delivered && not (locked e)

-- `.limit(n)`
abbrev pub take {ℓ} : {A : Type ℓ} → ℕ → List A → List A
take zero xs = []
take (suc n) [] = []
take (suc n) (x ∷ xs) = x ∷ take n xs

abbrev pub delivered : Event → Event
delivered e = record e { delivered = true }

-- `event.delivered = True` for the first rows that the query finds.
unfoldable pub mark : (Event → Bool) → ℕ → List Event → List Event
mark p zero rows = rows
mark p (suc n) [] = []
mark p (suc n) (e ∷ rows) =
    let taken = mark p n rows in
    let passed = mark p (suc n) rows in if p e then delivered e ∷ taken else e ∷ passed

-- The mails that leave before the loop ends or the server raises, and whether it raises.
pub record Sent : Type 0 where
  pub mails : List Mail
  pub failed : Bool

-- One round of the loop, before what the later rounds do.
abbrev pub send_one : (Mail → Bool) → Option Mail → Sent → Sent
send_one accepts none rest = rest
send_one accepts (some mail) rest =
    if accepts mail
    then record { mails = mail ∷ rest.mails; failed = rest.failed }
    else record { mails = []; failed = true }

unfoldable pub send_all : (Mail → Bool) → List Event → Sent
send_all accepts [] = record { mails = []; failed = false }
send_all accepts (e ∷ events) = send_one accepts (mail_of e) (send_all accepts events)

module _ (locked : Event → Bool) (accepts : Mail → Bool) where
  -- The transaction of one tenant. An exception rolls the marks back, and not the mails.
  unfoldable pub drain_tenant : ℕ → List Event → Sent × List Event
  unfolding send_all mark
  drain_tenant tenant rows =
      let sent = send_all accepts (take batch (select (is_pending locked tenant) rows)) in
      (sent, if sent.failed then rows else mark (is_pending locked tenant) batch rows)

  -- An exception ends the loop over the tenants.
  unfoldable pub drain_all : List ℕ → List Event → Sent × List Event
  unfolding drain_tenant
  drain_all [] rows = (record { mails = []; failed = false }, rows)
  drain_all (tenant ∷ tenants) rows =
      let one = drain_tenant tenant rows in
      let rest = drain_all tenants one.1 in
      if one.0.failed
      then one
      else (record { mails = one.0.mails ++ rest.0.mails; failed = rest.0.failed }, rest.1)

  unfoldable pub drain : Db → Sent × Db
  unfolding drain_all
  drain db =
      let done = drain_all (map (λ t. t.id) db.tenants) db.events in
      (done.0, record db { events = done.1 })
