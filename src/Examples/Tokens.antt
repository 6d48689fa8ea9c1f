-- ===== src/Examples/Tokens.antt =====
-- The token of a spend contract at the example organisation.
use quiblyx.Common.{ℕ, ◌≡◌, ◌≢◌, none, refl, ok, err, http, String}
use quiblyx.Model.{Db}
use quiblyx.Chat.{Payload}
use quiblyx.Hierarchy.{ancestry, climb}
use quiblyx.Security.{authorize, check_scope}
use quiblyx.Accounting.Budgets.{threshold_events, active_budgets, check_limits}
use quiblyx.Accounting.Clock.{Clock}
use quiblyx.Accounting.Contracts.{Claims, Step, admit_contract}
use quiblyx.Accounting.Creation.{create_spend_contract}
use quiblyx.Control.Tokens.{rotate_contract_token}
use quiblyx.Control.Tokens.Rotation.{IsRotated, rotate_contract_token-IsRotated}
use quiblyx.Examples.{noon, digest, greeting, start}
use quiblyx.Examples.Books.{task, claims, step}

abbrev pub contracted : Db
contracted = (create_spend_contract noon 700 1 2 3 task start).1

abbrev rotated_db : Db
rotated_db = (rotate_contract_token noon 1 700 "ada" contracted).1

abbrev new_claims : Claims
new_claims = record claims { version = 2 }

rotation_runs : rotate_contract_token noon 1 700 "ada" contracted ≡ (ok new_claims, rotated_db)
unfolding rotate_contract_token authorize check_scope create_spend_contract ancestry climb
    active_budgets check_limits threshold_events
rotation_runs = refl

-- The token of the first version worked before.
step_admitted :
    (admit_contract digest noon 901 claims "b" greeting step contracted).0 ≡ ok (901, none, 700)
unfolding admit_contract create_spend_contract ancestry climb active_budgets check_limits
    threshold_events
step_admitted = refl

rotate_contract_token-IsRotated_example :
    IsRotated 1 700 new_claims contracted rotated_db
    × ((clock : Clock) (uid : ℕ) (idem : String) (p : Payload) (st : Step) (old : Claims)
        → old.tenant_id ≡ 1
        → old.sub ≡ 700
        → old.version ≢ 2
        → admit_contract digest clock uid old idem p st rotated_db
          ≡ (err (http 401 "inactive_spend_contract"), rotated_db))
rotate_contract_token-IsRotated_example =
    rotate_contract_token-IsRotated digest noon 1 700 "ada" new_claims contracted rotated_db
      rotation_runs
