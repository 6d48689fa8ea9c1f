-- ===== src/Gateway.antt =====
-- services/gateway/main.py: the data plane. Here is the answer that a completed call stores.
pub mod Authentication
pub mod Streams
pub mod Awaits
pub mod Chats
use quiblyx.Common.{ℕ, ◌+◌, ◌*◌, Option, none, some, String, char_count}
use quiblyx.Model.{Response}
use quiblyx.Chat.{Chat}
use quiblyx.Provider.{input_units}

-- `contract if contract else None`, and the same for the step's name.
abbrev pub step_of : Option ℕ → String → Option String
step_of none step = none
step_of (some contract) step = some step

-- `result(content)`, less the fields that are the same in every answer.
abbrev pub result : (rid : ℕ) → Chat → Option ℕ → (step content : String) → Response
result rid chat contract step content = record {
  request_id = rid;
  content = content;
  prompt_tokens = input_units chat;
  completion_tokens = char_count content;
  total_tokens = input_units chat + char_count content;
  cost_microusd = input_units chat + char_count content * 2;
  spend_contract_id = contract;
  contract_step = step_of contract step;
}
