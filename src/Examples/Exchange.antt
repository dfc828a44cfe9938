-- ===== src/Examples/Exchange.antt =====
-- The loops of the client and the server task of the example applications, over the two queues of
-- their pair: happy_path_example.c, hello_world_example.c, advanced_api_example.c and
-- ea_task_creation_example.c. A queue of depth 1 is a `Channel`.
pub mod Invariant
pub mod Safety
pub mod Liveness
use edge_aware_tasks_rtos.Prelude.{
  ℕ, zero, suc, ◌+◌, ◌≡◌, Bool, true, false, Option, none, some, List, [], ◌∷◌, ltb, if◌then◌else◌,
}

-- What the tasks use of a FreeRTOS queue that holds one message; none is a call that has to wait.
pub record Channel : Type 1 where
  pub Queue : Type 0
  pub fresh : Queue
  pub send : ℕ → Queue → Option Queue
  pub receive : Queue → Option (ℕ × Queue)
  pub contents : Queue → List ℕ
  pub contents-fresh : contents fresh ≡ []
  pub send_room :
      (x : ℕ) (q : Queue)
      → contents q ≡ []
      → (r : Queue) × (send x q ≡ some r) × (contents r ≡ x ∷ [])
  pub send_full : (x y : ℕ) (q : Queue) → contents q ≡ y ∷ [] → send x q ≡ none
  pub receive_empty : (q : Queue) → contents q ≡ [] → receive q ≡ none
  pub receive_full :
      (x : ℕ) (q : Queue)
      → contents q ≡ x ∷ []
      → (r : Queue) × (receive q ≡ some (x, r)) × (contents r ≡ [])

-- Where the examples differ: the server's reply, whether the client goes on after its first
-- exchange, and whether a send waits for room.
pub record Protocol : Type 0 where
  pub reply : ℕ → ℕ
  pub repeats : Bool
  pub waits : Bool

-- The happy path and the advanced example.
unfoldable pub add_thousand : Protocol
add_thousand = record { reply = λ v. v + 1000; repeats = true; waits = true }

-- The hello-world example: one payload, which is 1.
unfoldable pub hello : Protocol
hello = record { reply = λ v. v + 1; repeats = false; waits = true }

-- The task creation example: the server's data do not depend on the client's.
unfoldable pub constant_data : Protocol
constant_data = record { reply = λ v. 1000; repeats = true; waits = false }

-- The client at the head of its loop with the last value sent, after its send, or past its
-- exchanges.
pub data Client : Type 0 where
  idle : ℕ → Client
  awaiting : ℕ → Client
  finished : Client

-- The server before its receive, or with a reply to send.
pub data Server : Type 0 where
  listening : Server
  replying : ℕ → Server

-- `INT_MAX + 1` for the 32-bit `int` of the values.
abbrev pub int_limit : ℕ
int_limit = 0x80000000

module _ (c : Channel) where
  -- The tasks, the two queues, the values sent with their replies, the last first, and the number
  -- of sends that found a full queue.
  pub record Pair : Type 0 where
    pub client : Client
    pub server : Server
    pub to_server : c.Queue
    pub to_client : c.Queue
    pub log : List (ℕ × ℕ)
    pub lost : ℕ

  unfoldable pub start : Pair
  start = record {
    client = idle 0;
    server = listening;
    to_server = c.fresh;
    to_client = c.fresh;
    log = [];
    lost = 0;
  }

  module _ (p : Protocol) where
    -- The client's send of `v`.
    unfoldable pub client_send : ℕ → Pair → Option Pair
    client_send v s = elim (c.send v s.to_server) [
      | some q ↦ some (record s { client = awaiting v; to_server = q })
      | none ↦ if p.waits then none else some (record s { client = awaiting v; lost = s.lost + 1 })
    ]

    -- After the reply `r` to `v`.
    unfoldable pub client_receive : ℕ → Pair → Option Pair
    client_receive v s = elim (c.receive s.to_client) [
      | none ↦ none
      | some (r, q) ↦ some (record s {
        client = if p.repeats then idle v else finished;
        to_client = q;
        log = (v, r) ∷ s.log;
      })
    ]

    unfoldable pub client_turn : Client → Pair → Option Pair
    unfolding client_send client_receive
    client_turn (idle v) s = if ltb (v + 1) int_limit then client_send (v + 1) s else none
    client_turn (awaiting v) s = client_receive v s
    client_turn finished s = none

    -- The next call of the client that goes through; none while it waits, at its end, and where
    -- `sensor_value++` would overflow.
    unfoldable pub client_step : Pair → Option Pair
    unfolding client_turn
    client_step s = client_turn s.client s

    unfoldable pub server_turn : Server → Pair → Option Pair
    server_turn listening s = elim (c.receive s.to_server) [
      | none ↦ none
      | some (v, q) ↦
          if ltb (p.reply v) int_limit
          then some (record s { server = replying (p.reply v); to_server = q })
          else none
    ]
    server_turn (replying r) s = elim (c.send r s.to_client) [
      | some q ↦ some (record s { server = listening; to_client = q })
      | none ↦ if p.waits then none else some (record s { server = listening; lost = s.lost + 1 })
    ]

    -- The next call of the server that goes through; none while it waits, and where the reply
    -- would overflow.
    unfoldable pub server_step : Pair → Option Pair
    unfolding server_turn
    server_step s = server_turn s.server s

    -- One task goes on, whichever the scheduler takes.
    pub data Step (s : Pair) : Pair → Type 0 where
      by_client : {t : Pair} → client_step s ≡ some t → Step s t
      by_server : {t : Pair} → server_step s ≡ some t → Step s t

    pub data Steps (s : Pair) : Pair → Type 0 where
      no_step : Steps s s
      one_step : {t u : Pair} → Steps s t → Step t u → Steps s u

    unfoldable pub steps_taken : {s t : Pair} → Steps s t → ℕ
    steps_taken no_step = 0
    steps_taken (one_step path _) = suc (steps_taken path)

    -- A schedule of `n` steps: the client's where it can go on, else the server's.
    unfoldable pub run : ℕ → Pair → Pair
    unfolding client_step server_step
    run zero s = s
    run (suc n) s = elim (client_step s) [
      | some t ↦ run n t
      | none ↦ elim (server_step s) [ some t ↦ run n t | none ↦ s ]
    ]
