-- ===== src/Http/Bodies.antt =====
-- `observe` of packages/observability/http.py: no application sees a body above the limit.
use quiblyx.Common.{
  ℕ, ◌+◌, ◌≤◌, ◌<◌, ◌≡◌, refl, inl, inr, false, Option, List, [], ◌∷◌, arith, String, ltb, leb,
  if◌then◌else◌, ◌>>◌, Bool-cases, length, ok, err, http,
}
use quiblyx.Http.{Inbound, part, other, body_limit, receive_all, check_length, observe}

abbrev pub body_size : List Inbound → ℕ
body_size [] = 0
body_size (part body ∷ messages) = length body + body_size messages
body_size (other ∷ messages) = body_size messages

receive_all-fits :
    (size : ℕ) (messages : List Inbound)
    → size ≤ body_limit
    → size + body_size messages ≤ body_limit
    → receive_all size messages ≡ ok messages
unfolding receive_all
receive_all-fits size [] h fits = refl
receive_all-fits size (part body ∷ messages) h fits =
    let next : ltb body_limit (size + length body) ≡ false = ground arith in
    rw
      (
        next,
        receive_all-fits (size + length body) messages (omega (arith, fits)) (omega (arith, fits)),
      )
      refl
receive_all-fits size (other ∷ messages) h fits = rw (receive_all-fits size messages h fits) refl

receive_all-exceeds :
    (size : ℕ) (messages : List Inbound)
    → size ≤ body_limit
    → body_limit < size + body_size messages
    → receive_all size messages ≡ err (http 413 "request_too_large")
unfolding receive_all
receive_all-exceeds size [] h over = absurd (omega (arith, h, over))
receive_all-exceeds size (part body ∷ messages) h over =
    elim (Bool-cases (ltb body_limit (size + length body))) [
      | inl stop ↦ rw stop refl
      | inr next ↦
          rw
            (
              next,
              receive_all-exceeds (size + length body) messages (ground arith)
                  (omega (arith, over)),
            )
            refl
    ]
receive_all-exceeds size (other ∷ messages) h over =
    rw (receive_all-exceeds size messages h over) refl

receive_all_lem :
    (messages : List Inbound)
    → receive_all 0 messages ≡ (
        if leb (body_size messages) body_limit
        then ok messages
        else err (http 413 "request_too_large"))
receive_all_lem messages = elim (Bool-cases (leb (body_size messages) body_limit)) [
  | inl fits ↦ rw fits (receive_all-fits 0 messages (omega arith) (ground arith))
  | inr over ↦ rw over (receive_all-exceeds 0 messages (omega arith) (ground arith))
]

-- Once the header is accepted, the application reads its body whole and unchanged if all parts
-- together are within the limit; if they exceed it, the request fails with 413. How the body is
-- split, and what the header stated, makes no difference.
pub observe_lem :
    (header : Option String) (messages : List Inbound)
    → observe header messages ≡ (
        check_length header
        >> (if leb (body_size messages) body_limit
            then ok messages
            else err (http 413 "request_too_large")))
unfolding observe
observe_lem header messages = rw (receive_all_lem messages) refl
