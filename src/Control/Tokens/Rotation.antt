-- ===== src/Control/Tokens/Rotation.antt =====
-- `rotate_contract_token` of services/control_api/main.py against `admit_contract` of
-- packages/domain/accounting.py.
use quiblyx.Common.{
  ◌+◌, ℕ, ◌≡◌, ◌≢◌, refl, ◌∙◌, ap, inl, inr, true, false, none, some, Option-cases, arith, String,
  ◌==◌, ==_iff, ==_refl, scalar, &&_true, scalar-update, scalar_hit, update, ok, err, http,
}
use quiblyx.Model.{Db, SpendContract, transaction}
use quiblyx.Chat.{Payload}
use quiblyx.Security.{authorize}
use quiblyx.Accounting.Clock.{Clock}
use quiblyx.Accounting.Contracts.{
  Claims, Step, admit_contract, admit_contract_body, check_principal, claims_match, contract_at,
  is_active, is_contract,
}
use quiblyx.Control.Common.{authorized-eq-ok}
use quiblyx.Control.Tokens.{
  issue_contract_token, rotate_contract_token, rotate_contract_token_body, rotated,
}

-- The contract after a rotation, and the new token's place in it.
pub record IsRotated (t id : ℕ) (token : Claims) (db db' : Db) : Type 0 where
  pub before : SpendContract
  pub found_before : contract_at db t id ≡ some before
  pub next : token.version ≡ before.token_version + 1
  pub contract : SpendContract
  pub found : contract_at db' t id ≡ some contract
  pub active : is_active contract.state ≡ true
  pub version : token.version ≡ contract.token_version
  pub matches : claims_match token contract ≡ true
  pub names : (token.tenant_id ≡ t) × (token.sub ≡ id)

contract_hit :
    (t id : ℕ) (c : SpendContract) (db : Db)
    → contract_at db t id ≡ some c
    → ((c.tenant_id == t) ≡ true) × ((c.id == id) ≡ true)
contract_hit t id c db found =
    &&_true (c.tenant_id == t) (c.id == id) (scalar_hit (is_contract t id) db.contracts c found)

-- The query for a contract after the update of its row.
contract_at-rotated :
    (t id : ℕ) (c : SpendContract) (db : Db)
    → contract_at db t id ≡ some c
    → scalar (is_contract t id) (update (is_contract t c.id) rotated db.contracts)
      ≡ some (rotated c)
contract_at-rotated t id c db found =
    scalar-update (is_contract t id) (is_contract t c.id) rotated db.contracts (λ x. refl)
    ∙ rw (found, (contract_hit t id c db found).0, ==_refl c.id) refl

rotate_contract_token_body-IsRotated :
    (clock : Clock) (t id : ℕ) (subject : String) (token : Claims) (db db' : Db)
    → rotate_contract_token_body clock t id subject db ≡ ok (token, db')
    → IsRotated t id token db db'
unfolding rotate_contract_token_body
rotate_contract_token_body-IsRotated clock t id subject token db db' e =
    elim (Option-cases (contract_at db t id)) [
      | inl missing ↦ absurd (ground arith)
      | inr (c, found) ↦
          let hit = contract_hit t id c db found in
          let live : is_active c.state ≡ true = ground arith in
          let same : token ≡ issue_contract_token (rotated c) = ground arith in
          let made : db'.contracts ≡ update (is_contract t c.id) rotated db.contracts =
            ground arith in
          record {
            before = c;
            found_before = found;
            next = ap (λ x. x.version) same;
            contract = rotated c;
            found = ap (scalar (is_contract t id)) made ∙ contract_at-rotated t id c db found;
            active = live;
            version = ap (λ x. x.version) same;
            matches = rw (same, ==_refl c.application_id, ==_refl c.key_id) refl;
            names = (
              ap (λ x. x.tenant_id) same ∙ (==_iff c.tenant_id t).0 hit.0,
              ap (λ x. x.sub) same ∙ (==_iff c.id id).0 hit.1,
            );
          }
    ]

-- A token with another version than the contract's admits nothing.
admit_contract-stale :
    (digest : Payload → String) (clock : Clock) (uid t id : ℕ) (idem : String) (p : Payload)
    (st : Step) (old token : Claims) (db0 db : Db)
    → IsRotated t id token db0 db
    → old.tenant_id ≡ t
    → old.sub ≡ id
    → old.version ≢ token.version
    → admit_contract digest clock uid old idem p st db
      ≡ (err (http 401 "inactive_spend_contract"), db)
unfolding admit_contract admit_contract_body check_principal
admit_contract-stale digest clock uid t id idem p st old token db0 db r tenant sub ne =
    let found : contract_at db old.tenant_id old.sub ≡ some r.contract =
      ap (λ x. contract_at db x old.sub) tenant ∙ ap (contract_at db t) sub ∙ r.found in
    let live = r.active in
    let version = r.version in
    let differ : (r.contract.token_version == old.version) ≡ false = ground arith in
    rw (found, live, differ, transaction) refl

-- After a rotation, every token that names the contract with another version than the new token's
-- is refused, and its call changes nothing. The new token's version is one more than the contract's
-- was; it names the contract, which is active, and carries its version, application and key.
pub rotate_contract_token-IsRotated :
    (digest : Payload → String) (clock : Clock) (t id : ℕ) (subject : String) (token : Claims)
    (db db' : Db)
    → rotate_contract_token clock t id subject db ≡ (ok token, db')
    → IsRotated t id token db db'
      × ((clock' : Clock) (uid : ℕ) (idem : String) (p : Payload) (st : Step) (old : Claims)
          → old.tenant_id ≡ t
          → old.sub ≡ id
          → old.version ≢ token.version
          → admit_contract digest clock' uid old idem p st db'
            ≡ (err (http 401 "inactive_spend_contract"), db'))
unfolding rotate_contract_token
rotate_contract_token-IsRotated digest clock t id subject token db db' e =
    let (role, permitted, done) =
      authorized-eq-ok (authorize db t subject true none none)
        (λ _. rotate_contract_token_body clock t id subject) db token db' e in
    let r = rotate_contract_token_body-IsRotated clock t id subject token db db' done in
    (
      r,
      λ clock' uid idem p st old tenant sub ne.
          admit_contract-stale digest clock' uid t id idem p st old token db db' r tenant sub ne,
    )
