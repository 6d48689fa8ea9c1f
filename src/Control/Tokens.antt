-- ===== src/Control/Tokens.antt =====
-- services/control_api/main.py, `rotate_contract_token`, and `issue_contract_token` of
-- packages/domain/security.py, whose claims stand for the signed token.
pub mod Rotation
use quiblyx.Common.{
  ℕ, ◌+◌, Bool, true, none, not, ◌||◌, String, leb, update, Result, ok, err, http, ◌>>=◌, ◌>>◌,
  raise_if, or_raise,
}
use quiblyx.Model.{Db, SpendContract, ContractState}
use quiblyx.Security.{authorize}
use quiblyx.Accounting.Clock.{Clock}
use quiblyx.Accounting.Contracts.{Claims, contract_at, is_contract, is_active}
use quiblyx.Control.Common.{audit, authorized}

-- The claims that admission reads; `iat` and `exp` are checked by the library that verifies.
abbrev pub issue_contract_token : SpendContract → Claims
issue_contract_token c = record {
  sub = c.id;
  tenant_id = c.tenant_id;
  application_id = c.application_id;
  key_id = c.key_id;
  version = c.token_version;
  scope = "spend:allocate";
}

abbrev pub rotated : SpendContract → SpendContract
rotated c = record c { token_version = c.token_version + 1 }

unfoldable pub rotate_contract_token_body :
    Clock → (tenant contract_id : ℕ) (subject : String) → Db → Result (Claims × Db)
rotate_contract_token_body clock tenant contract_id subject db = do
  c ← or_raise (contract_at db tenant contract_id) (http 404 "resource_not_found")
  raise_if (not (is_active c.state) || leb c.expires_at clock.now) (http 409 "contract_not_active")
  ok (
    issue_contract_token (rotated c),
    audit tenant subject "spend_contract.token_rotated" c.id
        (record db { contracts = update (is_contract tenant c.id) rotated db.contracts }),
  )

unfoldable pub rotate_contract_token :
    Clock → (tenant contract_id : ℕ) (subject : String) → Db → Result Claims × Db
unfolding rotate_contract_token_body
rotate_contract_token clock tenant contract_id subject db =
    authorized (authorize db tenant subject true none none)
      (λ _. rotate_contract_token_body clock tenant contract_id subject) db
