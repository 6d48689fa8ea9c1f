-- ===== src/Provider.antt =====
-- packages/providers/mock.py: the deterministic provider, its prices and its stream.
pub mod Prices
use quiblyx.Common.{
  ℕ, zero, suc, ◌+◌, ◌*◌, Bool, true, false, ◌&&◌, List, [], ◌∷◌, String, ◌==◌, if◌then◌else◌,
  sum_by, byte_len, Char, no_text, str_cons,
}
use quiblyx.Chat.{Chat, Fault, Message}

-- The units of a message count the bytes of its UTF-8.
abbrev pub message_units : Message → ℕ
message_units m = byte_len m.content + 8

abbrev pub input_units : Chat → ℕ
input_units chat = sum_by message_units chat.messages

abbrev pub bound : Chat → ℕ
bound chat = input_units chat + chat.max_tokens * 2

-- `text[:n]`, in characters.
unfoldable pub first : ℕ → String → String
first zero text = no_text
first (suc n) no_text = no_text
first (suc n) (str_cons c text) = str_cons c (first n text)

abbrev pub answer : String
answer = "Deterministic mock response."

abbrev pub output : Chat → String
output chat = first chat.max_tokens answer

-- What a stream yields before it ends or raises `TimeoutError`.
pub record Stream : Type 0 where
  pub chunks : List Char
  pub timed_out : Bool

abbrev pub is_timeout : Fault → Bool
is_timeout Fault.timeout = true
is_timeout _ = false

abbrev pub is_partial : Fault → Bool
is_partial Fault.partial_stream = true
is_partial _ = false

-- The loop over the output from an index on.
unfoldable pub emit : Bool → ℕ → String → Stream
emit partial index no_text = record { chunks = []; timed_out = false }
emit partial index (str_cons c text) =
    let rest = emit partial (suc index) text in
    if partial && (index == 3)
    then record { chunks = []; timed_out = true }
    else record { chunks = c ∷ rest.chunks; timed_out = rest.timed_out }

unfoldable pub chunks : Chat → Stream
unfolding emit
chunks chat =
    if is_timeout chat.mock_fault
    then record { chunks = []; timed_out = true }
    else emit (is_partial chat.mock_fault) 0 (output chat)

-- The gateway's `content += chunk`, from the first chunk on.
abbrev pub joined : List Char → String
joined [] = no_text
joined (c ∷ cs) = str_cons c (joined cs)
