-- ===== src/Worker/Deliveries.antt =====
-- `drain` of services/worker/main.py: what is marked as delivered has been mailed.
use quiblyx.Common.{
  ℕ, zero, suc, ◌≡◌, refl, sym, ◌∙◌, ap, subst, ◌⊎◌, inl, inr, Bool, false, Bool-cases, Option,
  none, some, List, [], ◌∷◌, ◌++◌, map, All, All-map, select, if_intro,
}
use mathlib.Core.Option.{some-injective}
use quiblyx.Model.{Db, BudgetUnit, Event, Period, budget_threshold}
use quiblyx.Worker.{
  Mail, Sent, mail_of, batch, is_pending, take, delivered, mark, send_one, send_all, drain_tenant,
  drain_all, drain,
}

abbrev pub Has : Mail → List Mail → Type 0
Has m [] = ⊥
Has m (x ∷ mails) = (m ≡ x) ⊎ Has m mails

-- If the event tells a threshold, a mail that names the event, its tenant and that threshold is
-- among the mails.
abbrev pub WasMailed : List Mail → Event → Type 0
WasMailed mails e =
    (i n : ℕ) (unit : BudgetUnit) (p : Period)
    → e.payload ≡ budget_threshold i n unit p
    → Has (record { event = e.id; tenant = e.tenant_id; threshold = n }) mails

mail_of-threshold :
    (e : Event) (i n : ℕ) (unit : BudgetUnit) (p : Period)
    → e.payload ≡ budget_threshold i n unit p
    → mail_of e ≡ some (record { event = e.id; tenant = e.tenant_id; threshold = n })
mail_of-threshold e i n unit p tells =
    ap
      (λ x. elim x as (λ _. Option Mail) [
        | budget_threshold j m unit' q ↦
            some (record { event = e.id; tenant = e.tenant_id; threshold = m })
        | _ ↦ none
      ])
      tells

-- Each row stays, or is marked as delivered when its mail is among the mails. Nothing else of a
-- row changes, and no row is added or lost.
abbrev pub Delivers : List Mail → List Event → List Event → Type 0
Delivers mails [] [] = Unit
Delivers mails [] (f ∷ after) = ⊥
Delivers mails (e ∷ before) [] = ⊥
Delivers mails (e ∷ before) (f ∷ after) =
    ((f ≡ e) ⊎ ((f ≡ delivered e) × WasMailed mails e)) × Delivers mails before after

Has-append_left : (m : Mail) (xs ys : List Mail) → Has m xs → Has m (xs ++ ys)
Has-append_left m [] ys h = absurd h
Has-append_left m (x ∷ xs) ys (inl e) = inl e
Has-append_left m (x ∷ xs) ys (inr h) = inr (Has-append_left m xs ys h)

Has-append_right : (m : Mail) (xs ys : List Mail) → Has m ys → Has m (xs ++ ys)
Has-append_right m [] ys h = h
Has-append_right m (x ∷ xs) ys h = inr (Has-append_right m xs ys h)

Delivers-refl : (mails : List Mail) (rows : List Event) → Delivers mails rows rows
Delivers-refl mails [] = tt
Delivers-refl mails (e ∷ rows) = (inl refl, Delivers-refl mails rows)

Delivers-append :
    (xs ys : List Mail) (a b c : List Event)
    → Delivers xs a b
    → Delivers ys b c
    → Delivers (xs ++ ys) a c
Delivers-append xs ys [] [] [] h k = tt
Delivers-append xs ys [] [] (g ∷ c) h k = k
Delivers-append xs ys [] (f ∷ b) c h k = absurd h
Delivers-append xs ys (e ∷ a) [] c h k = absurd h
Delivers-append xs ys (e ∷ a) (f ∷ b) [] h k = absurd k
Delivers-append xs ys (e ∷ a) (f ∷ b) (g ∷ c) (h, hs) (k, ks) =
    (both h k, Delivers-append xs ys a b c hs ks)
  where
    left : (d : Event) → WasMailed xs d → WasMailed (xs ++ ys) d
    left d w i n unit p tells = Has-append_left _ xs ys (w i n unit p tells)

    right : (d : Event) → WasMailed ys d → WasMailed (xs ++ ys) d
    right d w i n unit p tells = Has-append_right _ xs ys (w i n unit p tells)

    both :
        (f ≡ e) ⊎ ((f ≡ delivered e) × WasMailed xs e)
        → (g ≡ f) ⊎ ((g ≡ delivered f) × WasMailed ys f)
        → (g ≡ e) ⊎ ((g ≡ delivered e) × WasMailed (xs ++ ys) e)
    both (inl p) (inl q) = inl (q ∙ p)
    both (inl p) (inr (q, w)) = inr (q ∙ ap delivered p, right e (subst (WasMailed ys) p w))
    both (inr (p, w)) (inl q) = inr (q ∙ p, left e w)
    both (inr (p, w)) (inr (q, v)) = inr (q ∙ ap delivered p, left e w)

WasMailed-cons :
    (m : Mail) (mails : List Mail) (events : List Event)
    → All (WasMailed mails) events
    → All (WasMailed (m ∷ mails)) events
WasMailed-cons m mails events =
    All-map _ _ events (λ e w i n unit p tells. inr (w i n unit p tells))

send_one-WasMailed :
    (accepts : Mail → Bool) (e : Event) (o : Option Mail) (rest : Sent) (events : List Event)
    → mail_of e ≡ o
    → (rest.failed ≡ false → All (WasMailed rest.mails) events)
    → (send_one accepts o rest).failed ≡ false
    → All (WasMailed (send_one accepts o rest).mails) (e ∷ events)
send_one-WasMailed accepts e none rest events has later done =
    (λ i n unit p tells. absurd (cc (has, mail_of-threshold e i n unit p tells)), later done)
send_one-WasMailed accepts e (some mail) rest events has later done =
    if_intro (λ (s : Sent). s.failed ≡ false → All (WasMailed s.mails) (e ∷ events)) (accepts mail)
      (λ taken sent. (
        λ i n unit p tells.
            inl (some-injective _ mail (sym (mail_of-threshold e i n unit p tells) ∙ has)),
        WasMailed-cons mail rest.mails events (later sent),
      ))
      (λ refused failed. absurd (cc failed)) done

send_all-WasMailed :
    (accepts : Mail → Bool) (events : List Event)
    → (send_all accepts events).failed ≡ false
    → All (WasMailed (send_all accepts events).mails) events
unfolding send_all
send_all-WasMailed accepts [] done = tt
send_all-WasMailed accepts (e ∷ events) done =
    send_one-WasMailed accepts e (mail_of e) (send_all accepts events) events refl
      (send_all-WasMailed accepts events) done

mark-Delivers :
    (p : Event → Bool) (mails : List Mail) (n : ℕ) (rows : List Event)
    → All (WasMailed mails) (take n (select p rows))
    → Delivers mails rows (mark p n rows)
unfolding mark
mark-Delivers p mails zero rows h = Delivers-refl mails rows
mark-Delivers p mails (suc n) [] h = tt
mark-Delivers p mails (suc n) (e ∷ rows) h = elim (Bool-cases (p e)) [
  | inl hit ↦ let k = rw hit at h in rw hit (inr (refl, k.0), mark-Delivers p mails n rows k.1)
  | inr miss ↦ let k = rw miss at h in rw miss (inl refl, mark-Delivers p mails (suc n) rows k)
]

module _ (locked : Event → Bool) (accepts : Mail → Bool) where
  drain_tenant-Delivers :
      (tenant : ℕ) (rows : List Event)
      → Delivers
          (drain_tenant locked accepts tenant rows).0.mails
          rows
          (drain_tenant locked accepts tenant rows).1
  unfolding drain_tenant
  drain_tenant-Delivers tenant rows =
      let sent = send_all accepts (take batch (select (is_pending locked tenant) rows)) in
      if_intro (Delivers sent.mails rows) sent.failed (λ _. Delivers-refl sent.mails rows)
        (λ done.
          mark-Delivers (is_pending locked tenant) sent.mails batch rows
            (send_all-WasMailed accepts (take batch (select (is_pending locked tenant) rows)) done))

  drain_all-Delivers :
      (tenants : List ℕ) (rows : List Event)
      → Delivers
          (drain_all locked accepts tenants rows).0.mails
          rows
          (drain_all locked accepts tenants rows).1
  unfolding drain_all
  drain_all-Delivers [] rows = Delivers-refl [] rows
  drain_all-Delivers (tenant ∷ tenants) rows =
      let one = drain_tenant locked accepts tenant rows in
      let rest = drain_all locked accepts tenants one.1 in
      if_intro (λ (out : Sent × List Event). Delivers out.0.mails rows out.1) one.0.failed
        (λ _. drain_tenant-Delivers tenant rows)
        (λ _.
          Delivers-append one.0.mails rest.0.mails rows one.1 rest.1
            (drain_tenant-Delivers tenant rows) (drain_all-Delivers tenants one.1))

-- Whatever mails the SMTP server refuses, a drain changes nothing of the outbox but marks, and for
-- each threshold event that it marks as delivered, a mail that names the event by its identifier,
-- its tenant and its threshold has been sent in this drain.
pub drain-Delivers :
    (locked : Event → Bool) (accepts : Mail → Bool) (db : Db)
    → Delivers (drain locked accepts db).0.mails db.events (drain locked accepts db).1.events
unfolding drain
drain-Delivers locked accepts db =
    drain_all-Delivers locked accepts (map (λ t. t.id) db.tenants) db.events
