-- ===== src/Examples/Exchange/Invariant.antt =====
-- The phases of an exchange between the tasks of a pair, and the step that leads from each to the
-- next.
use edge_aware_tasks_rtos.Prelude.{
  ℕ, zero, suc, ◌+◌, ◌*◌, ◌≡◌, refl, ◌∙◌, true, false, Option, none, some, List, [], ◌∷◌, ltb,
  arith, ap, if◌then◌else◌,
}
use edge_aware_tasks_rtos.Examples.Exchange.{
  Channel, Protocol, Client, idle, awaiting, finished, Server, listening, replying, int_limit, Pair,
  client_send, client_receive, client_turn, client_step, server_turn, server_step,
}

-- The log after `n` exchanges: every value from 1 to `n` once, with its reply.
unfoldable pub rounds : (ℕ → ℕ) → ℕ → List (ℕ × ℕ)
rounds reply zero = []
rounds reply (suc n) = (suc n, reply (suc n)) ∷ rounds reply n

module _ (c : Channel) (p : Protocol) where
  -- Where the tasks are, and what the two queues hold, after `n` exchanges.
  pub record At (x : Client) (y : Server) (a b : List ℕ) (n : ℕ) (s : Pair c) : Type 0 where
    pub client : s.client ≡ x
    pub server : s.server ≡ y
    pub to_server : c.contents s.to_server ≡ a
    pub to_client : c.contents s.to_client ≡ b
    pub log : s.log ≡ rounds p.reply n
    pub lost : s.lost ≡ 0

  -- A client that does not repeat has its first exchange only.
  abbrev pub Allowed : ℕ → Type 0
  Allowed n = (p.repeats ≡ false) → n ≡ 0

  pub data Phase (s : Pair c) : Type 0 where
    resting : (n : ℕ) → Allowed n → At (idle n) listening [] [] n s → Phase s
    sent : (n : ℕ) → Allowed n → At (awaiting (suc n)) listening (suc n ∷ []) [] n s → Phase s
    answering :
        (n : ℕ) → Allowed n → At (awaiting (suc n)) (replying (p.reply (suc n))) [] [] n s → Phase s
    answered :
        (n : ℕ)
        → Allowed n
        → At (awaiting (suc n)) listening [] (p.reply (suc n) ∷ []) n s
        → Phase s
    ended : p.repeats ≡ false → At finished listening [] [] 1 s → Phase s

  -- The steps that lead to a phase.
  unfoldable pub taken : {s : Pair c} → Phase s → ℕ
  taken (resting n a h) = 4 * n
  taken (sent n a h) = 4 * n + 1
  taken (answering n a h) = 4 * n + 2
  taken (answered n a h) = 4 * n + 3
  taken (ended off h) = 4

  from_client :
      (s : Pair c) {x : Client} {r : Option (Pair c)}
      → s.client ≡ x
      → client_turn c p x s ≡ r
      → client_step c p s ≡ r
  unfolding client_step
  from_client s e f = ap (λ x. client_turn c p x s) e ∙ f

  from_server :
      (s : Pair c) {y : Server} {r : Option (Pair c)}
      → s.server ≡ y
      → server_turn c p y s ≡ r
      → server_step c p s ≡ r
  unfolding server_step
  from_server s e f = ap (λ y. server_turn c p y s) e ∙ f

  -- The server waits while nothing was sent.
  pub server_waits :
      (x : Client) (b : List ℕ) (n : ℕ) (s : Pair c)
      → At x listening [] b n s
      → server_step c p s ≡ none
  unfolding server_turn
  server_waits x b n s h =
      from_server s h.server (rw (c.receive_empty s.to_server h.to_server, server_turn) refl)

  -- The client waits while there is no reply.
  pub client_waits :
      (v : ℕ) (y : Server) (a : List ℕ) (n : ℕ) (s : Pair c)
      → At (awaiting v) y a [] n s
      → client_step c p s ≡ none
  unfolding client_turn client_receive
  client_waits v y a n s h =
      from_client s h.client (rw (c.receive_empty s.to_client h.to_client, client_receive) refl)

  pub finished_stops :
      (y : Server) (a b : List ℕ) (n : ℕ) (s : Pair c)
      → At finished y a b n s
      → client_step c p s ≡ none
  unfolding client_turn
  finished_stops y a b n s h = from_client s h.client refl

  pub idle_sends :
      (n : ℕ) (s : Pair c)
      → At (idle n) listening [] [] n s
      → ltb (n + 1) int_limit ≡ true
      → (t : Pair c) × (client_step c p s ≡ some t)
        × At (awaiting (suc n)) listening (suc n ∷ []) [] n t
  unfolding client_turn client_send
  idle_sends n s h small =
      let (q, went, holds) = c.send_room (n + 1) s.to_server h.to_server in
      (
        record s { client = awaiting (n + 1); to_server = q },
        from_client s h.client (rw small (rw (went, client_send) refl)),
        record {
          client = ground arith;
          server = h.server;
          to_server = ground (arith, holds);
          to_client = h.to_client;
          log = h.log;
          lost = h.lost;
        },
      )

  pub server_takes :
      (v n : ℕ) (s : Pair c)
      → At (awaiting v) listening (v ∷ []) [] n s
      → ltb (p.reply v) int_limit ≡ true
      → (t : Pair c) × (server_step c p s ≡ some t)
        × At (awaiting v) (replying (p.reply v)) [] [] n t
  unfolding server_turn
  server_takes v n s h small =
      let (q, got, holds) = c.receive_full v s.to_server h.to_server in
      (
        record s { server = replying (p.reply v); to_server = q },
        from_server s h.server (rw (got, server_turn) (rw small refl)),
        record {
          client = h.client;
          server = refl;
          to_server = holds;
          to_client = h.to_client;
          log = h.log;
          lost = h.lost;
        },
      )

  pub server_answers :
      (v r n : ℕ) (s : Pair c)
      → At (awaiting v) (replying r) [] [] n s
      → (t : Pair c) × (server_step c p s ≡ some t) × At (awaiting v) listening [] (r ∷ []) n t
  unfolding server_turn
  server_answers v r n s h =
      let (q, went, holds) = c.send_room r s.to_client h.to_client in
      (
        record s { server = listening; to_client = q },
        from_server s h.server (rw (went, server_turn) refl),
        record {
          client = h.client;
          server = refl;
          to_server = h.to_server;
          to_client = holds;
          log = h.log;
          lost = h.lost;
        },
      )

  -- What the client does after its exchanges.
  abbrev pub next_client : ℕ → Client
  next_client v = if p.repeats then idle v else finished

  pub client_gets :
      (n : ℕ) (s : Pair c)
      → At (awaiting (suc n)) listening [] (p.reply (suc n) ∷ []) n s
      → (t : Pair c) × (client_step c p s ≡ some t)
        × At (next_client (suc n)) listening [] [] (suc n) t
  unfolding client_turn client_receive rounds
  client_gets n s h =
      let (q, got, holds) = c.receive_full (p.reply (suc n)) s.to_client h.to_client in
      (
        record s {
          client = next_client (suc n);
          to_client = q;
          log = (suc n, p.reply (suc n)) ∷ s.log;
        },
        from_client s h.client (rw (got, client_receive) refl),
        record {
          client = refl;
          server = h.server;
          to_server = h.to_server;
          to_client = holds;
          log = ap (λ l. (suc n, p.reply (suc n)) ∷ l) h.log;
          lost = h.lost;
        },
      )
