-- ===== src/Provider/Prices.antt =====
-- packages/providers/mock.py against the answer that services/gateway/main.py builds from it.
use Prim.Native.String.count
use quiblyx.Common.{
  ℕ, zero, suc, ◌+◌, ◌≤◌, ◌<◌, ◌≡◌, ◌↔◌, ◌⊎◌, inl, inr, refl, ap, Bool, true, false, ◌&&◌,
  Bool-cases, Option, String, ◌==◌, ==_iff, arith, Char, no_text, str_cons, char_count,
}
use quiblyx.Model.{Response}
use quiblyx.Chat.{Chat}
use quiblyx.Provider.{
  Stream, answer, bound, chunks, emit, first, input_units, is_partial, is_timeout, joined, output,
}
use quiblyx.Gateway.{result}

char_count-cons : (c : Char) (s : String) → char_count (str_cons c s) ≡ suc (char_count s)
char_count-cons c s = λ i. count.cons c s i

char_count-nil : char_count no_text ≡ 0
char_count-nil = refl

-- A slice has no more characters than asked for.
char_count-first : (n : ℕ) (s : String) → char_count (first n s) ≤ n
unfolding first
char_count-first zero s = omega arith
char_count-first (suc n) no_text = omega arith
char_count-first (suc n) (str_cons c s) =
    omega (arith, char_count-cons c (first n s), char_count-first n s)

-- Without the fault the loop yields the whole text.
emit-whole :
    (i : ℕ) (s : String)
    → (joined (emit false i s).chunks ≡ s) × ((emit false i s).timed_out ≡ false)
unfolding emit
emit-whole i no_text = (refl, refl)
emit-whole i (str_cons c s) = let rest = emit-whole (suc i) s in (ap (str_cons c) rest.0, rest.1)

-- With it the loop stops before the character with index 3, if there is one.
emit-partial :
    (i : ℕ) (s : String) → i ≤ 3 → ((emit true i s).timed_out ≡ true) ↔ (3 < i + char_count s)
unfolding emit
emit-partial i no_text h = ground arith
emit-partial i (str_cons c s) h = elim (Bool-cases (i == 3)) [
  | inl here ↦
      let eq : i ≡ 3 = (==_iff i 3).0 here in
      rw here (λ _. omega (arith, eq, char_count-cons c s), λ _. refl)
  | inr before ↦
      let rest = emit-partial (suc i) s (ground arith) in
      rw before (
        λ e. omega (arith, rest.0 e, char_count-cons c s),
        λ l. rest.1 (omega (arith, l, char_count-cons c s)),
      )
]

emit-partial_whole :
    (i : ℕ) (s : String) → (emit true i s).timed_out ≡ false → joined (emit true i s).chunks ≡ s
unfolding emit
emit-partial_whole i no_text h = refl
emit-partial_whole i (str_cons c s) h = elim (Bool-cases (i == 3)) [
  | inl here ↦ absurd (ground arith)
  | inr before ↦ rw before (ap (str_cons c) (emit-partial_whole (suc i) s (ground arith)))
]

emit-covered :
    (p : Bool) (i : ℕ) (s : String) → char_count (joined (emit p i s).chunks) ≤ char_count s
unfolding emit
emit-covered p i no_text = omega arith
emit-covered p i (str_cons c s) = elim (Bool-cases (p && (i == 3))) [
  | inl stops ↦ rw stops (omega arith)
  | inr goes ↦ rw goes (
      omega (
        arith,
        char_count-cons c s,
        char_count-cons c (joined (emit p (suc i) s).chunks),
        emit-covered p (suc i) s,
      ))
]

-- What an answer to a chat from the provider's chunks costs and says.
pub record IsCovered (chat : Chat) (s : Stream) (r : Response) : Type 0 where
  pub within_cost : r.cost_microusd ≤ bound chat
  pub within_tokens : r.total_tokens ≤ input_units chat + chat.max_tokens
  pub whole : s.timed_out ≡ false → r.content ≡ output chat
  pub fails : (s.timed_out ≡ true) ↔ (
      (is_timeout chat.mock_fault ≡ true)
      ⊎ ((is_partial chat.mock_fault ≡ true)
          × (is_timeout chat.mock_fault ≡ false)
          × (3 < char_count (output chat))))

emit-IsCovered :
    (rid : ℕ) (chat : Chat) (contract : Option ℕ) (step : String) (p : Bool)
    → is_timeout chat.mock_fault ≡ false
    → is_partial chat.mock_fault ≡ p
    → IsCovered chat
        (emit p 0 (output chat))
        (result rid chat contract step (joined (emit p 0 (output chat)).chunks))
emit-IsCovered rid chat contract step false a b =
    let all = emit-whole 0 (output chat) in
    let few = emit-covered false 0 (output chat) in
    record {
      within_cost = omega (arith, few, char_count-first chat.max_tokens answer);
      within_tokens = omega (arith, few, char_count-first chat.max_tokens answer);
      whole = λ h. all.0;
      fails = (λ h. absurd (cc (h, all.1)), λ h. absurd (ground arith));
    }
emit-IsCovered rid chat contract step true a b =
    let cut = emit-partial 0 (output chat) (omega arith) in
    let few = emit-covered true 0 (output chat) in
    record {
      within_cost = omega (arith, few, char_count-first chat.max_tokens answer);
      within_tokens = omega (arith, few, char_count-first chat.max_tokens answer);
      whole = λ h. emit-partial_whole 0 (output chat) h;
      fails = (
        λ h. inr (b, a, omega (arith, cut.0 h)),
        λ h. elim h [ inl t ↦ absurd (cc (t, a)) | inr (x, y, long) ↦ cut.1 (omega (arith, long)) ],
      );
    }

-- The answer that the gateway builds from the provider's chunks costs no more than the bound that
-- was reserved and uses no more tokens than the token bound. The stream times out exactly under
-- the fault `timeout`, or under `partial_stream` if the output has more than three characters;
-- otherwise the answer is the whole output.
pub chunks-IsCovered :
    (rid : ℕ) (chat : Chat) (contract : Option ℕ) (step : String)
    → IsCovered chat (chunks chat) (result rid chat contract step (joined (chunks chat).chunks))
unfolding chunks
chunks-IsCovered rid chat contract step = elim (Bool-cases (is_timeout chat.mock_fault)) [
  | inl fails ↦ rw fails (record {
    within_cost = omega arith;
    within_tokens = omega arith;
    whole = λ h. absurd (cc h);
    fails = (λ h. inl fails, λ h. refl);
  })
  | inr runs ↦
      rw runs (emit-IsCovered rid chat contract step (is_partial chat.mock_fault) runs refl)
]
