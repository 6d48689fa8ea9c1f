-- ===== src/Chat.antt =====
-- packages/contracts/chat.py: a chat request, and its dump as the payload that admission digests.
use quiblyx.Common.{ℕ, String, Bool, List, []}

pub data Speaker : Type 0 where
  system user assistant : Speaker

pub record Message : Type 0 where
  pub role : Speaker
  pub content : String

pub data Fault : Type 0 where
  none before_dispatch timeout partial_stream : Fault

-- `model` is one of three names, and `max_tokens` lies between 1 and 4096: the framework checks
-- both before the program runs.
pub record Chat : Type 0 where
  pub model : String
  pub messages : List Message
  pub max_tokens : ℕ
  pub stream : Bool
  pub mock_fault : Fault

-- A dictionary with the fields of a chat; `tools` is what `payload.get("tools")` finds.
pub record Payload : Type 0 where
  pub body : Chat
  pub tools : List String

-- `body.model_dump()`. A chat has no field `tools`.
abbrev pub model_dump : Chat → Payload
model_dump body = record { body = body; tools = [] }
