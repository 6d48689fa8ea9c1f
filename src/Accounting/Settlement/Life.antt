-- ===== src/Accounting/Settlement/Life.antt =====
-- The life of a request under the calls of packages/domain/accounting.py.
pub mod Calls
use quiblyx.Common.{
  ℕ, zero, suc, ◌≤◌, ◌≡◌, refl, sym, ◌∙◌, ap, ◌⊎◌, inl, inr, Bool, true, false, not, ◌&&◌,
  Bool-cases, Option, none, some, Option-cases, List, [], ◌∷◌, arith, ◌==◌, ==_iff, &&_true,
  if◌then◌else◌, scalar, scalar_hit, update, String, ℤ, contains, map, Result, ok, err,
}
use mathlib.Core.Option.{some-injective}
use quiblyx.Model.{Db, transaction-keeps, Request, RequestState, ContractState}
use quiblyx.Accounting.Settlement.Machine.{
  Reaches, Reaches-trans, allowed-Reaches, finished-Reaches,
}
use quiblyx.Accounting.Settlement.{
  is_final, is_request, request_at, allowed, transition_body, transition, Usage, finished,
  bad_release,
}

-- Reserved, dispatched, uncertain, and the two final states.
abbrev pub rank : RequestState → ℕ
rank RequestState.reserved = 0
rank RequestState.dispatched = 1
rank RequestState.uncertain = 2
rank RequestState.completed = 3
rank RequestState.released = 3

-- How a row may differ from what it was: its state moves forward, a final row does not change,
-- and the owner, the keys, the bound and the contract stay.
pub record IsLater (r s : Request) : Type 0 where
  pub forward : rank r.state ≤ rank s.state
  pub reaches : Reaches r.state s.state
  pub final : is_final r.state ≡ true → s ≡ r
  pub same_id : s.id ≡ r.id
  pub same_tenant : s.tenant_id ≡ r.tenant_id
  pub same_key : s.key_id ≡ r.key_id
  pub same_idempotency_key : s.idempotency_key ≡ r.idempotency_key
  pub same_payload : s.payload_hash ≡ r.payload_hash
  pub same_bound : s.bound ≡ r.bound
  pub same_contract : s.contract_id ≡ r.contract_id

pub IsLater-refl : (r : Request) → IsLater r r
IsLater-refl r = record {
  forward = omega arith;
  reaches = Reaches.stays r.state;
  final = λ _. refl;
  same_id = refl;
  same_tenant = refl;
  same_key = refl;
  same_idempotency_key = refl;
  same_payload = refl;
  same_bound = refl;
  same_contract = refl;
}

pub IsLater-trans : (r s u : Request) → IsLater r s → IsLater s u → IsLater r u
IsLater-trans r s u h k = record {
  forward = omega (arith, h.forward, k.forward);
  reaches = Reaches-trans r.state s.state u.state h.reaches k.reaches;
  final = λ f. k.final (rw (h.final f) f) ∙ h.final f;
  same_id = k.same_id ∙ h.same_id;
  same_tenant = k.same_tenant ∙ h.same_tenant;
  same_key = k.same_key ∙ h.same_key;
  same_idempotency_key = k.same_idempotency_key ∙ h.same_idempotency_key;
  same_payload = k.same_payload ∙ h.same_payload;
  same_bound = k.same_bound ∙ h.same_bound;
  same_contract = k.same_contract ∙ h.same_contract;
}

-- The request is still there, and no earlier than it was.
pub record Continues (t q : ℕ) (r : Request) (db : Db) : Type 0 where
  pub row : Request
  pub found : request_at db t q ≡ some row
  pub later : IsLater r row

-- A query for a request after an update of one request.
pub request_at-update :
    (t q t' q' : ℕ) (f : Request → Request) (rows : List Request)
    → ((x : Request) → (f x).id ≡ x.id)
    → ((x : Request) → (f x).tenant_id ≡ x.tenant_id)
    → (r : Request) → scalar (is_request t q) rows ≡ some r
    → scalar (is_request t q) (update (is_request t' q') f rows)
      ≡ some (if is_request t' q' r then f r else r)
request_at-update t q t' q' f [] fi ft r e = cc
request_at-update t q t' q' f (x ∷ rows) fi ft r e =
    ground (arith, fi x, ft x, request_at-update t q t' q' f rows fi ft r)

pub is_request-eq :
    (t q : ℕ) (r : Request) → is_request t q r ≡ true → (r.id ≡ q) × (r.tenant_id ≡ t)
is_request-eq t q r h = ground arith

-- An update of the request that was found by its own query.
pub update-Continues :
    (t q t' q' : ℕ) (f : Request → Request) (db db' : Db) (r r' : Request)
    → request_at db t q ≡ some r
    → request_at db t' q' ≡ some r'
    → ((x : Request) → (f x).id ≡ x.id)
    → ((x : Request) → (f x).tenant_id ≡ x.tenant_id)
    → IsLater r' (f r')
    → db'.requests ≡ update (is_request t' q') f db.requests
    → Continues t q r db'
update-Continues t q t' q' f db db' r r' e e' fi ft later result = record {
  row = if is_request t' q' r then f r else r;
  found = ap (scalar (is_request t q)) result ∙ request_at-update t q t' q' f db.requests fi ft r e;
  later = elim (Bool-cases (is_request t' q' r)) [
    | inr other ↦ rw other (IsLater-refl r)
    | inl hit ↦
        let mine = is_request-eq t q r (scalar_hit _ db.requests r e) in
        let yours = is_request-eq t' q' r hit in
        let same : r ≡ r' = some-injective r r' (
          sym e
          ∙ ap (λ n. request_at db n q) (sym mine.1 ∙ yours.1)
          ∙ ap (request_at db t') (sym mine.0 ∙ yours.0)
          ∙ e') in
        rw (hit, same) later
  ];
}

allowed-rank-le : (a b : RequestState) → allowed a b ≡ true → rank a ≤ rank b
allowed-rank-le a b h = ground arith

-- A row that was not final moves forward by an allowed transition, or by a settlement.
pub moved-IsLater :
    (r : Request) (state : RequestState)
    → is_final r.state ≡ false
    → allowed r.state state ≡ true
    → IsLater r (record r { state = state })
moved-IsLater r state pending may = record {
  forward = allowed-rank-le r.state state may;
  reaches = allowed-Reaches r.state state may;
  final = λ f. absurd (cc);
  same_id = refl;
  same_tenant = refl;
  same_key = refl;
  same_idempotency_key = refl;
  same_payload = refl;
  same_bound = refl;
  same_contract = refl;
}

pub finished-IsLater :
    (cost : ℕ) (u : Usage) (r : Request)
    → is_final r.state ≡ false
    → bad_release u r.state cost ≡ false
    → IsLater r (finished cost u r)
finished-IsLater cost u r pending releasable = record {
  forward = ground arith;
  reaches = finished-Reaches u r.state cost pending releasable;
  final = λ f. absurd (cc);
  same_id = refl;
  same_tenant = refl;
  same_key = refl;
  same_idempotency_key = refl;
  same_payload = refl;
  same_bound = refl;
  same_contract = refl;
}
