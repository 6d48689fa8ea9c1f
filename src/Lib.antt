-- ===== src/Lib.antt =====
-- Quiblyx, a multi-tenant gateway for language models that puts budgets and spend contracts in
-- front of every call.
--
-- The parts. The control API (services/control_api/main.py) lets the members of a tenant arrange
-- groups, applications, keys, budgets and memberships; what a member may do is decided by
-- packages/domain/security.py. The gateway (services/gateway/main.py) authenticates a key, admits
-- a request against the budgets of the application, its groups and the tenant, calls a provider
-- and settles the request. packages/domain/accounting.py is the one authority for admission and
-- settlement; both services call it, and they share nothing but the database.
--
-- Where what is modelled:
--   Common            tables as lists, results, tests on numbers and texts; no code of its own
--   Model/Rows        the tables of packages/domain/models.py, one record per table
--   Model/Database    all tables, and `transaction` of packages/domain/db.py
--   Chat              packages/contracts/chat.py
--   Hierarchy         `ancestry` of packages/domain/security.py
--   Security          `authorize` of packages/domain/security.py, the role templates
--   Accounting        packages/domain/accounting.py:
--     Clock             `month` and the current day
--     Budgets           the active budgets of a path, their limits, `threshold_events`
--     Admission         `admit`
--     Settlement        `transition`, and the budget part of `settle`
--     Creation          `create_spend_contract`
--     Contracts         `admit_contract`
--     Closing           `settle` in whole, `close_spend_contract`
--     Calls             the public functions as calls, and histories of calls
--     Release           the reservations of a new request, backed by their budgets
--     Books, Contracts/Limits, Contracts/Inactive, Settlement/Life   invariants of such histories
--   Control           services/control_api/main.py: Organisations (`create_org`,
--                     `organisation`), Groups (`create_group`, `move_group`), Members
--                     (`assign_membership`), Limits (`budget`), Keys (`create_key`,
--                     `revoke_key`, `rotate_key`), Tokens (`rotate_contract_token`),
--                     Applications (`create_connection`, `create_application`, `pause`, `create_project`,
--                     `create_service_account`), Roles (`create_role`), Contracts
--                     (`create_contract`, `close_contract`, `revoke_contract`,
--                     `contract_receipt`), Requests (`reconcile`, `usage`, `request_detail`),
--                     Changes (histories of handlers), Common (`find`, `audit`, a handler behind
--                     `authorize`)
--   Provider          packages/providers/mock.py
--   Gateway           services/gateway/main.py: Authentication (`authenticate`), the stored answer
--                     (`result`), Streams (the generator `execute` of `chat`), Awaits, Chats (`chat`, with
--                     its cancellation at each await)
--   Identity          packages/domain/config.py, and `identity` of packages/domain/security.py
--   Worker            services/worker/main.py, `drain`
--   Http              packages/observability/http.py: the limit on bodies, the answers to errors
--   Examples          one organisation at which everything runs
--
-- How the code corresponds. A table is a list of rows, the newest first; `select` keeps the
-- order, `s.scalar` takes the first match, an assignment to a row is an update of the rows with
-- its key. An exception is an `err` value, and a transaction that ends in one leaves the database
-- as it was. Every public function is one step, and a history is a list of calls, one after the
-- other. Overlapping calls are such a list where the locks on the root budget or the contract put
-- them in an order before anything that they decide on is read; that does not hold of two
-- overlapping settlements of one contract step, since `settle` reads the request before the lock and
-- `settle_contract_request` does not read it again. The latter takes the row as an argument, as in
-- the source, and Examples/Overlaps runs it on a row that is out of date. A handler that authorizes
-- first does so in a transaction that writes nothing; it is modelled on the same database as the
-- body that follows.
--
-- Bounds. Identifiers are natural numbers; the ones that `uuid4` draws are arguments, and where it
-- matters a theorem asks that they are new; events of the outbox are numbered as they are added.
-- The loop of `ancestry` runs on the room that is left of its 64 groups, which is the source's own
-- bound, so no fuel is added. Amounts that a CHECK constraint keeps non-negative are natural
-- numbers, and a write that would make one negative is an integrity error. Amounts that a caller
-- reports are integers. The bounds of a contract step and the token bound of an admission are
-- unchecked integers in the source and natural numbers here: the only caller, `chat`, passes what
-- the mock provider computes, which is never negative. Reading the clock is an argument, read once
-- for each transaction. Times are numbers.
--
-- Parameters. `payload_digest` and `digest` (SHA-256) are parameters without hypotheses. JWT, OIDC
-- and Fernet are library cryptography: `decode` stands for what PyJWT accepts, the claims of a
-- contract token for the signed token, `encrypt` for Fernet; the decoder of the identity provider's
-- tokens and `compare_digest` are parameters, the latter with the hypothesis that it holds only of
-- equal texts. `accepts` says which mails the SMTP server takes, `locked` which rows another drain
-- holds. The counter in Redis, and the place at which the task of a chat is cancelled, are inputs
-- of the handler: any await of it, a stream that is never started, or a moment of the generator. A
-- cancelled await of a thread says whether the thread has begun, and so runs on, or never does.
--
-- Not modelled: `created_at` and other columns that nothing reads (the order of rows that were
-- added in one transaction is the order of the additions); row-level security, which repeats in the
-- database the tenant condition that every query has; the framework's validation of request
-- bodies, taken as done; the listing of resources, whose rows are of thirteen tables; a settlement
-- of the generator that runs on in its thread beside the transition to uncertain (a cancellation
-- comes before the settlement or after it); metrics, migrations, scripts and the web console.
pub mod Common
pub mod Model
pub mod Chat
pub mod Hierarchy
pub mod Security
pub mod Control
pub mod Accounting
pub mod Provider
pub mod Gateway
pub mod Identity
pub mod Worker
pub mod Http
mod Examples
