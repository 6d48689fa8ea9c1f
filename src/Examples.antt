-- ===== src/Examples.antt =====
-- One organisation with a group, an application, a key and two budgets, at which the theorems are
-- applied and the functions of packages/domain run.
mod Books
mod Overlaps
mod Admission
mod Groups
mod Requests
mod Members
mod Handlers
mod Streams
mod Tokens
mod Organisations
mod Outbox
mod Changes
mod Chats
mod Contracts
mod Identities
use quiblyx.Common.{ℕ, Bool, true, false, Option, none, some, List, [], ◌∷◌, String, pos}
use quiblyx.Model.{
  Db, Tenant, Membership, RoleName, Group, Application, Key, Budget, BudgetUnit, monthly,
}
use quiblyx.Chat.{Chat, Message, Speaker, Fault, Payload, model_dump}
use quiblyx.Accounting.Clock.{Clock}

-- Noon on day 20 of month 5.
abbrev pub noon : Clock
noon = record { now = 500; month_number = 5; day_number = 20 }

-- A digest that tells the payloads of the examples apart: the model and the stream flag.
abbrev pub digest : Payload → String
digest p = p.body.model

abbrev pub hello : Chat
hello = record {
  model = "org-balanced";
  messages = record { role = Speaker.user; content = "Hello" } ∷ [];
  max_tokens = 4;
  stream = false;
  mock_fault = Fault.none;
}

abbrev pub greeting : Payload
greeting = model_dump hello

abbrev pub root_row : Budget
root_row = record {
  id = 100;
  tenant_id = 1;
  scope_id = 1;
  period = monthly 5;
  unit = BudgetUnit.money;
  hard_limit = 100;
  spent = 0;
  reserved = 0;
  version = 1;
}

abbrev pub group_row : Budget
group_row = record root_row { id = 101; scope_id = 10; hard_limit = 60 }

abbrev pub start : Db
start = record {
  tenants = record { id = 1; name = "Acme"; content_days = 0; metadata_days = 90 } ∷ [];
  memberships =
      record { id = 50; tenant_id = 1; subject = "ada"; role = RoleName.owner; scope_id = none }
      ∷ [];
  groups =
      record { id = 11; tenant_id = 1; name = "team"; parent_id = some 10; paused = false }
      ∷ record { id = 10; tenant_id = 1; name = "unit"; parent_id = none; paused = false }
      ∷ [];
  roles = [];
  projects = [];
  service_accounts = [];
  connections = [];
  applications =
      record {
        id = 2;
        tenant_id = 1;
        name = "desk";
        group_id = some 11;
        connection_id = 4;
        paused = false;
        project_id = none;
      }
      ∷ [];
  keys =
      record {
        id = 3;
        tenant_id = 1;
        application_id = 2;
        digest = "d";
        prefix = "vk_";
        revoked = false;
        service_account_id = none;
      }
      ∷ [];
  budgets = group_row ∷ root_row ∷ [];
  requests = [];
  reservations = [];
  ledger = [];
  events = [];
  audits = [];
  contracts = [];
  contract_reservations = [];
  allocations = [];
  contract_ledger = [];
}
