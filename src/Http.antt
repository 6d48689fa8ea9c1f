-- ===== src/Http.antt =====
-- packages/observability/http.py, `configure`: the guard in front of every request, and how an
-- error leaves a service.
pub mod Bodies
use quiblyx.Common.{
  ℕ, ◌+◌, ◌-◌, ◌*◌, Bool, true, false, not, ◌&&◌, ◌||◌, Option, none, some, List, [], ◌∷◌, String,
  Char, no_text, str_cons, code, char_count, ltb, leb, ◌==◌, if◌then◌else◌, length, Result, Error,
  ok, err, http, value_error, integrity_error, ◌>>=◌, ◌>>◌, raise_if,
}

abbrev pub body_limit : ℕ
body_limit = 600000

-- An ASGI message: a part of the body, as bytes, or any other.
pub data Inbound : Type 0 where
  part : List ℕ → Inbound
  other : Inbound

-- `bounded_receive`, with the size that it has counted.
unfoldable pub bounded_receive : ℕ → Inbound → Result (ℕ × Inbound)
bounded_receive size (part body) = do
  raise_if (ltb body_limit (size + length body)) (http 413 "request_too_large")
  ok (size + length body, part body)
bounded_receive size other = ok (size, other)

-- An application that reads its whole body.
unfoldable pub receive_all : ℕ → List Inbound → Result (List Inbound)
unfolding bounded_receive
receive_all size [] = ok []
receive_all size (message ∷ messages) = do
  one ← bounded_receive size message
  rest ← receive_all one.0 messages
  ok (one.1 ∷ rest)

abbrev pub is_decimal : Char → Bool
is_decimal c = leb 48 (code c) && leb (code c) 57

-- `str.isdigit` of one character of a header, which is Latin-1: the superscripts count as digits.
abbrev pub is_digit : Char → Bool
is_digit c = is_decimal c || (code c == 178) || (code c == 179) || (code c == 185)

unfoldable pub all_digits : String → Bool
all_digits no_text = true
all_digits (str_cons c s) = is_digit c && all_digits s

abbrev pub isdigit : String → Bool
isdigit no_text = false
isdigit (str_cons c s) = is_digit c && all_digits s

-- `int(text)` of a text that passed `isdigit`, digit by digit; a superscript has no value.
unfoldable pub int_from : ℕ → String → Result ℕ
int_from acc no_text = ok acc
int_from acc (str_cons c s) = do
  raise_if (not (is_decimal c)) (value_error "invalid literal for int()")
  int_from (acc * 10 + (code c - 48)) s

-- `int` also refuses a text of more than 4300 digits.
unfoldable pub int_of : String → Result ℕ
unfolding int_from
int_of text = do
  raise_if (ltb 4300 (char_count text)) (value_error "exceeds the limit for conversion")
  int_from 0 text

-- `request.headers.get("content-length", "0")`
abbrev pub length_header : Option String → String
length_header none = "0"
length_header (some text) = text

-- The check of the header, before the application is called.
unfoldable pub check_length : Option String → Result (Unit {0})
unfolding all_digits int_of
check_length header = do
  raise_if (not (isdigit (length_header header))) (http 413 "request_too_large")
  n ← int_of (length_header header)
  raise_if (ltb body_limit n) (http 413 "request_too_large")

-- What the application reads of the body.
unfoldable pub observe : Option String → List Inbound → Result (List Inbound)
unfolding check_length receive_all
observe header messages = do check_length header; receive_all 0 messages

-- `errors` and `database_errors`: the status and the code of the answer. Any other exception has
-- no handler, and the framework answers 500.
abbrev pub error_response : Error → ℕ × String
error_response (http status detail) = (status, detail)
error_response integrity_error = (503, "accounting_authority_unavailable")
error_response _ = (500, "Internal Server Error")
