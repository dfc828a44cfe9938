-- ===== src/Examples/Stream.antt =====
-- The producer and the consumer of components/EEAA/examples/port/port_rtos_example.c: three messages
-- over a queue of depth 5. The delays between the sends are left out.
pub mod Ends
use edge_aware_tasks_rtos.Prelude.{
  ℕ, suc, ◌<◌, ◌≡◌, Option, none, some, List, [], ◌∷◌, ◌++◌, Text, codes, length, take, print_int,
  ltb, if◌then◌else◌,
}

-- `app_msg_t`
pub record Message : Type 0 where
  pub id : ℕ
  pub message : Text

-- `snprintf(msg.message, sizeof(msg.message), "Hello %" PRIu32, i)`: 19 characters fit.
unfoldable pub hello_message : ℕ → Message
unfolding print_int
hello_message i = record { id = i; message = take 19 (codes "Hello " ++ print_int i) }

-- What the tasks use of a FreeRTOS queue that was created; the oldest message comes first, and none
-- is a call that has to wait.
pub record Fifo (depth : ℕ) : Type 1 where
  pub Queue : Type 0
  pub fresh : Queue
  pub send : Message → Queue → Option Queue
  pub receive : Queue → Option (Message × Queue)
  pub contents : Queue → List Message
  pub contents-fresh : contents fresh ≡ []
  pub send_room :
      (x : Message) (q : Queue)
      → length (contents q) < depth
      → (r : Queue) × (send x q ≡ some r) × (contents r ≡ contents q ++ x ∷ [])
  pub send_full : (x : Message) (q : Queue) → length (contents q) ≡ depth → send x q ≡ none
  pub receive_empty : (q : Queue) → contents q ≡ [] → receive q ≡ none
  pub receive_first :
      (x : Message) (xs : List Message) (q : Queue)
      → contents q ≡ x ∷ xs
      → (r : Queue) × (receive q ≡ some (x, r)) × (contents r ≡ xs)

-- The depth and the number of messages of the example.
abbrev pub queue_depth : ℕ
queue_depth = 5

abbrev pub rounds : ℕ
rounds = 3

module _ (f : Fifo queue_depth) where
  -- The rounds that the two tasks have made, the queue, and what was received, in order.
  pub record Stream : Type 0 where
    pub sent : ℕ
    pub taken : ℕ
    pub queue : f.Queue
    pub received : List Message

  unfoldable pub empty_stream : Stream
  empty_stream = record { sent = 0; taken = 0; queue = f.fresh; received = [] }

  -- One round of each loop; none while the task waits, and at its end.
  unfoldable pub producer_step : Stream → Option Stream
  unfolding hello_message
  producer_step s =
      if ltb s.sent rounds
      then elim (f.send (hello_message s.sent) s.queue) [
        | none ↦ none
        | some q ↦ some (record s { sent = suc s.sent; queue = q })
      ]
      else none

  unfoldable pub consumer_step : Stream → Option Stream
  consumer_step s =
      if ltb s.taken rounds
      then elim (f.receive s.queue) [
        | none ↦ none
        | some (x, q) ↦
            some (record s { taken = suc s.taken; queue = q; received = s.received ++ x ∷ [] })
      ]
      else none

  -- One task goes on, whichever the scheduler takes.
  pub data Step (s t : Stream) : Type 0 where
    by_producer : producer_step s ≡ some t → Step s t
    by_consumer : consumer_step s ≡ some t → Step s t

  pub data Steps (s : Stream) : Stream → Type 0 where
    no_step : Steps s s
    one_step : {t u : Stream} → Steps s t → Step t u → Steps s u

  abbrev pub steps_taken : {s t : Stream} → Steps s t → ℕ
  steps_taken no_step = 0
  steps_taken (one_step p e) = suc (steps_taken p)
