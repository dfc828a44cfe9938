-- ===== src/Witnesses/PortExamples.antt =====
-- The theorems on the examples of the port at concrete inputs.
use edge_aware_tasks_rtos.Prelude.{
  ℕ, ◌+◌, ◌*◌, ◌<◌, ◌≡◌, refl, ap, true, false, Option, none, some, List, [], ◌∷◌, ◌++◌, length,
  ltb, leb, ◌&&◌, arith, if◌then◌else◌,
}
use edge_aware_tasks_rtos.Port.Board.{get_cpu_cycles_per_ms}
use edge_aware_tasks_rtos.Examples.BoardChecks.{conversion_is_accurate, conversion_is_accurate_iff}
use edge_aware_tasks_rtos.Examples.Stream.{
  Message, hello_message, Fifo, Stream, empty_stream, producer_step, consumer_step, Step,
  by_producer, by_consumer, Steps, no_step, one_step, steps_taken,
}
use edge_aware_tasks_rtos.Examples.Stream.Ends.{stream_ends}

abbrev put : Message → List Message → Option (List Message)
put x q = if ltb (length q) 5 then some (q ++ x ∷ []) else none

abbrev take_first : List Message → Option (Message × List Message)
take_first [] = none
take_first (x ∷ xs) = some (x, xs)

put_room :
    (x : Message) (q : List Message)
    → length q < 5
    → (r : List Message) × (put x q ≡ some r) × (r ≡ q ++ x ∷ [])
put_room x q l =
    let room : ltb (length q) 5 ≡ true = ground (arith, l) in (q ++ x ∷ [], rw room refl, refl)

put_full : (x : Message) (q : List Message) → length q ≡ 5 → put x q ≡ none
put_full x q l = let full : ltb (length q) 5 ≡ false = ground (arith, l) in rw full refl

take_empty : (q : List Message) → q ≡ [] → take_first q ≡ none
take_empty q e = ap take_first e

take_some :
    (x : Message) (xs q : List Message)
    → q ≡ x ∷ xs
    → (r : List Message) × (take_first q ≡ some (x, r)) × (r ≡ xs)
take_some x xs q e = (xs, ap take_first e, refl)

abbrev sample_fifo : Fifo 5
sample_fifo = record {
  Queue = List Message;
  fresh = [];
  send = put;
  receive = take_first;
  contents = λ q. q;
  contents-fresh = refl;
  send_room = put_room;
  send_full = put_full;
  receive_empty = take_empty;
  receive_first = take_some;
}

-- The producer sends two, the consumer takes one, and so on to the end.
abbrev stream : (sent taken : ℕ) (q received : List Message) → Stream sample_fifo
stream n m q r = record { sent = n; taken = m; queue = q; received = r }

abbrev ended : Stream sample_fifo
ended = stream 3 3 [] (hello_message 0 ∷ hello_message 1 ∷ hello_message 2 ∷ [])

abbrev at_start : Stream sample_fifo
at_start = stream 0 0 [] []

abbrev one_sent : Stream sample_fifo
one_sent = stream 1 0 (hello_message 0 ∷ []) []

abbrev two_sent : Stream sample_fifo
two_sent = stream 2 0 (hello_message 0 ∷ hello_message 1 ∷ []) []

abbrev one_taken : Stream sample_fifo
one_taken = stream 2 1 (hello_message 1 ∷ []) (hello_message 0 ∷ [])

abbrev all_sent : Stream sample_fifo
all_sent = stream 3 1 (hello_message 1 ∷ hello_message 2 ∷ []) (hello_message 0 ∷ [])

abbrev two_taken : Stream sample_fifo
two_taken = stream 3 2 (hello_message 2 ∷ []) (hello_message 0 ∷ hello_message 1 ∷ [])

sends : (s t : Stream sample_fifo) → producer_step sample_fifo s ≡ some t → Step sample_fifo s t
sends s t e = by_producer e

takes : (s t : Stream sample_fifo) → consumer_step sample_fifo s ≡ some t → Step sample_fifo s t
takes s t e = by_consumer e

sending : Steps sample_fifo at_start two_sent
unfolding producer_step
sending = one_step (one_step no_step (sends at_start one_sent refl)) (sends one_sent two_sent refl)

path : Steps sample_fifo (empty_stream sample_fifo) ended
unfolding empty_stream producer_step consumer_step
path =
    one_step
      (one_step
        (one_step (one_step sending (takes two_sent one_taken refl))
          (sends one_taken all_sent refl))
        (takes all_sent two_taken refl))
      (takes two_taken ended refl)

stream_ends_example :
    (ended.received ≡ hello_message 0 ∷ hello_message 1 ∷ hello_message 2 ∷ [])
    × (sample_fifo.contents ended.queue ≡ [])
    × (steps_taken sample_fifo path ≡ 6)
unfolding producer_step consumer_step
stream_ends_example = stream_ends sample_fifo ended path refl refl

-- 240 MHz, a counter that wraps, and 100 ms.
conversion_is_accurate_iff_example :
    conversion_is_accurate 240000000 4294967000 (4294967000 + 24000000) ≡ (
      leb (95 * get_cpu_cycles_per_ms 240000000) 24000000
      && ltb 24000000 (111 * get_cpu_cycles_per_ms 240000000))
conversion_is_accurate_iff_example =
    conversion_is_accurate_iff 240000000 4294967000 24000000 (omega arith) (omega arith)
      (omega arith)
