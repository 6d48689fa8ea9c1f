-- ===== src/Accounting/Budgets/Thresholds.antt =====
-- The threshold events of packages/domain/accounting.py: they change the outbox alone, and no
-- threshold of a budget is announced twice.
use quiblyx.Common.{
  ℕ, ◌+◌, ◌*◌, ◌≤◌, ◌≢◌, ◌≡◌, refl, Bool, false, ◌&&◌, ◌||◌, List, [], ◌∷◌, arith, leb, ◌==◌,
  if◌then◌else◌, any, sum_by, All, Option, some, none, length, if_intro,
}
use quiblyx.Model.{Db, Budget, Event, budget_threshold}
use quiblyx.Accounting.Budgets.{
  raise_threshold, threshold_event, threshold_events, has_event, dedup_eq,
}

pub raise_threshold-frame :
    (b : Budget) (n : ℕ) (db : Db)
    → raise_threshold b n db ≡ record db { events = (raise_threshold b n db).events }
unfolding raise_threshold
raise_threshold-frame b n db = ground arith

-- Everything but the outbox is left as it was.
pub threshold_events-frame :
    (b : Budget) (db : Db)
    → threshold_events b db ≡ record db { events = (threshold_events b db).events }
unfolding threshold_events raise_threshold
threshold_events-frame b db = ground (arith)

-- How many events announce threshold `n` of budget `i` of tenant `t`.
abbrev pub announced : ℕ → ℕ → ℕ → List Event → ℕ
announced t i n = sum_by (λ e. if (e.tenant_id == t) && dedup_eq e.dedup_key t i n then 1 else 0)

-- The UNIQUE constraint on `dedup_key`.
abbrev pub IsDeduped : List Event → Type 0
IsDeduped events = (t i n : ℕ) → announced t i n events ≤ 1

-- `spent + reserved` has reached `n` percent of the limit.
abbrev pub crosses : Budget → ℕ → Bool
crosses b n = leb (b.hard_limit * n) ((b.spent + b.reserved) * 100)

-- The event tells that budget `i` of tenant `t` has reached threshold `n`: by what it says, and not
-- by its key.
unfoldable pub tells : (t i n : ℕ) → Event → Bool
tells t i n e = elim e.payload [
  | budget_threshold j m unit period ↦ (e.tenant_id == t) && (j == i) && (m == n)
  | _ ↦ false
]

-- What an event must have as its key.
abbrev pub key_of : Event → Option (ℕ × ℕ × ℕ)
key_of e = elim e.payload [ budget_threshold j m unit period ↦ some (e.tenant_id, j, m) | _ ↦ none ]

abbrev pub IsKeyed : Event → Type 0
IsKeyed e = e.dedup_key ≡ key_of e

keyed-tells :
    (t i n : ℕ) (e : Event)
    → IsKeyed e
    → ((e.tenant_id == t) && dedup_eq e.dedup_key t i n) ≡ tells t i n e
unfolding tells
keyed-tells t i n e keyed = rw keyed (ground arith)

has_event-tells :
    (b : Budget) (n : ℕ) (events : List Event)
    → All IsKeyed events
    → any (λ e. (e.tenant_id == b.tenant_id) && dedup_eq e.dedup_key b.tenant_id b.id n) events
      ≡ any (tells b.tenant_id b.id n) events
has_event-tells b n [] keyed = refl
has_event-tells b n (e ∷ es) keyed =
    rw (keyed-tells b.tenant_id b.id n e keyed.0, has_event-tells b n es keyed.1) refl

tells-threshold_event :
    (t i n m id : ℕ) (b : Budget)
    → tells t i n (threshold_event id b m) ≡ ((b.tenant_id == t) && (b.id == i) && (m == n))
unfolding tells
tells-threshold_event t i n m id b = refl

raise_threshold-IsKeyed :
    (b : Budget) (m : ℕ) (db : Db)
    → All IsKeyed db.events
    → All IsKeyed (raise_threshold b m db).events
unfolding raise_threshold
raise_threshold-IsKeyed b m db keyed =
    if_intro (λ (d : Db). All IsKeyed d.events) (crosses b m)
      (λ _.
        if_intro (λ (d : Db). All IsKeyed d.events) (has_event db b m) (λ _. keyed)
          (λ _. (refl, keyed)))
      (λ _. keyed)

raise_threshold-tells :
    (b : Budget) (t i n m : ℕ) (db : Db)
    → All IsKeyed db.events
    → any (tells t i n) (raise_threshold b m db).events ≡ (
        any (tells t i n) db.events
        || ((b.tenant_id == t) && (b.id == i) && (m == n) && crosses b m))
unfolding raise_threshold
raise_threshold-tells b t i n m db keyed =
    ground (
      arith,
      has_event-tells b m db.events keyed,
      tells-threshold_event t i n m (length db.events) b,
    )

abbrev pub is_threshold : ℕ → Bool
is_threshold n = (70 == n) || (85 == n) || (95 == n)

-- After the check of a budget with a limit above zero, the outbox has an event that tells a
-- threshold of a budget exactly if it had one before, or if the budget is the one that is checked,
-- the threshold is one of 70, 85 and 95, and the committed amount has reached it. The keys of the
-- events before must be those of what they tell, and so are the keys after.
pub threshold_events-announces :
    (b : Budget) (t i n : ℕ) (db : Db)
    → b.hard_limit ≢ 0
    → All IsKeyed db.events
    → (any (tells t i n) (threshold_events b db).events ≡ (
        any (tells t i n) db.events
        || ((b.tenant_id == t) && (b.id == i) && is_threshold n && crosses b n)))
      × All IsKeyed (threshold_events b db).events
unfolding threshold_events
threshold_events-announces b t i n db limited keyed =
    let one : All IsKeyed (raise_threshold b 70 db).events =
      raise_threshold-IsKeyed b 70 db keyed in
    let two : All IsKeyed (raise_threshold b 85 (raise_threshold b 70 db)).events =
      raise_threshold-IsKeyed b 85 _ one in
    let zero_limit : (b.hard_limit == 0) ≡ false = ground arith in
    rw zero_limit (
      ground (
        arith,
        raise_threshold-tells b t i n 95 (raise_threshold b 85 (raise_threshold b 70 db)) two,
        raise_threshold-tells b t i n 85 (raise_threshold b 70 db) one,
        raise_threshold-tells b t i n 70 db keyed,
      ),
      raise_threshold-IsKeyed b 95 _ two,
    )
