-- ===== src/Examples/Streams.antt =====
-- The provider at the example request.
use quiblyx.Common.{◌≡◌, refl, none, true}
use quiblyx.Chat.{Chat, Fault}
use quiblyx.Provider.{chunks, joined, bound, first}
use quiblyx.Provider.Prices.{IsCovered, chunks-IsCovered}
use quiblyx.Gateway.{result}
use quiblyx.Examples.{hello}

hello_bound : bound hello ≡ 21
hello_bound = refl

hello_answer : joined (chunks hello).chunks ≡ "Dete"
unfolding chunks first
hello_answer = refl

abbrev broken : Chat
broken = record hello { mock_fault = Fault.partial_stream }

broken_answer : joined (chunks broken).chunks ≡ "Det"
unfolding chunks first
broken_answer = refl

broken_fails : (chunks broken).timed_out ≡ true
unfolding chunks first
broken_fails = refl

chunks-IsCovered_example :
    IsCovered broken
      (chunks broken)
      (result 900 broken none "model-call" (joined (chunks broken).chunks))
chunks-IsCovered_example = chunks-IsCovered 900 broken none "model-call"
