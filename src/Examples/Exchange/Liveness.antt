-- ===== src/Examples/Exchange/Liveness.antt =====
-- That a pair of example tasks goes on: neither task waits for ever, and its exchanges complete.
use edge_aware_tasks_rtos.Prelude.{
  ℕ, zero, suc, ◌+◌, ◌*◌, ◌≤◌, ◌≡◌, ◌≢◌, refl, sym, ◌∙◌, ap, subst, Bool, true, false, not, ◌&&◌,
  Option, none, some, [], ltb, arith, length, is_some, if◌then◌else◌,
}
use edge_aware_tasks_rtos.Examples.Exchange.{
  Channel, Protocol, idle, finished, listening, int_limit, Pair, start, client_step, server_step,
  Steps, run,
}
use edge_aware_tasks_rtos.Examples.Exchange.Invariant.{
  rounds, At, Phase, resting, sent, answering, answered, ended, server_waits, client_waits,
  idle_sends, server_takes, server_answers, client_gets,
}
use edge_aware_tasks_rtos.Examples.Exchange.Safety.{length-rounds, start-At, steps-Phase}

-- The client's next value and its reply are within `int`.
abbrev pub fits : (ℕ → ℕ) → ℕ → Bool
fits reply v = ltb v int_limit && ltb (reply v) int_limit

suc-add : (n : ℕ) → suc n ≡ n + 1
suc-add n = omega arith

both : {a b : Bool} → (a && b) ≡ true → (a ≡ true) × (b ≡ true)
both {a = true} {b = true} h = (refl, refl)
both {a = true} {b = false} h = ground (arith, h)
both {a = false} h = ground (arith, h)

module _ (c : Channel) (p : Protocol) where
  as_fits :
      (n : ℕ)
      → fits p.reply (suc n) ≡ true
      → (ltb (n + 1) int_limit ≡ true) × (ltb (p.reply (suc n)) int_limit ≡ true)
  as_fits n small =
      let (a, b) = both small in (subst (λ x. ltb x int_limit ≡ true) (suc-add n) a, b)

  -- The value after those of the log.
  next_fits :
      (s : Pair c) (n : ℕ)
      → s.log ≡ rounds p.reply n
      → fits p.reply (suc (length s.log)) ≡ true
      → (ltb (n + 1) int_limit ≡ true) × (ltb (p.reply (suc n)) int_limit ≡ true)
  next_fits s n e small =
      let count = ap length e ∙ length-rounds p.reply n in
      as_fits n (subst (λ l. fits p.reply (suc l) ≡ true) count small)

  client_goes :
      {x y : Option (Pair c)} {t : Pair c} → x ≡ some t → y ≡ none → is_some x ≡ not (is_some y)
  client_goes e f = ap is_some e ∙ sym (ap (λ o. not (is_some o)) f)

  server_goes :
      {x y : Option (Pair c)} {t : Pair c} → x ≡ none → y ≡ some t → is_some x ≡ not (is_some y)
  server_goes e f = ap is_some e ∙ sym (ap (λ o. not (is_some o)) f)

  one_goes :
      (s : Pair c)
      → Phase c p s
      → s.client ≢ finished
      → fits p.reply (suc (length s.log)) ≡ true
      → is_some (client_step c p s) ≡ not (is_some (server_step c p s))
  one_goes s (resting n a h) busy small =
      let (t, e, g) = idle_sends c p n s h (next_fits s n h.log small).0 in
      client_goes e (server_waits c p _ _ n s h)
  one_goes s (sent n a h) busy small =
      let (t, e, g) = server_takes c p (suc n) n s h (next_fits s n h.log small).1 in
      server_goes (client_waits c p _ _ _ n s h) e
  one_goes s (answering n a h) busy small =
      let (t, e, g) = server_answers c p (suc n) _ n s h in
      server_goes (client_waits c p _ _ _ n s h) e
  one_goes s (answered n a h) busy small =
      let (t, e, g) = client_gets c p n s h in client_goes e (server_waits c p _ _ n s h)
  one_goes s (ended off h) busy small = absurd (busy h.client)

  -- In every state that an example pair can reach, while the client has exchanges to make and its
  -- next value and the reply are within int, exactly one of the two tasks can go on, so that
  -- neither a deadlock nor a race for a queue arises.
  pub one_task_goes_on :
      (s : Pair c)
      → Steps c p (start c) s
      → s.client ≢ finished
      → fits p.reply (suc (length s.log)) ≡ true
      → is_some (client_step c p s) ≡ not (is_some (server_step c p s))
  one_task_goes_on s path = one_goes s (steps-Phase c p s path).0

  module _ (again : p.repeats ≡ true) where
    run_client :
        (n : ℕ) (s t : Pair c) → client_step c p s ≡ some t → run c p (suc n) s ≡ run c p n t
    unfolding run
    run_client n s t e = rw (e, run) refl

    run_server :
        (n : ℕ) (s t : Pair c)
        → client_step c p s ≡ none
        → server_step c p s ≡ some t
        → run c p (suc n) s ≡ run c p n t
    unfolding run
    run_server n s t e f = rw (e, run) (rw f refl)

    one_exchange :
        (n : ℕ) (s : Pair c)
        → At c p (idle n) listening [] [] n s
        → fits p.reply (suc n) ≡ true
        → (t : Pair c) × ((m : ℕ) → run c p (suc (suc (suc (suc m)))) s ≡ run c p m t)
          × At c p (idle (suc n)) listening [] [] (suc n) t
    one_exchange n s h small =
        let (t1, e1, h1) = idle_sends c p n s h (as_fits n small).0 in
        let (t2, e2, h2) = server_takes c p (suc n) n t1 h1 (as_fits n small).1 in
        let (t3, e3, h3) = server_answers c p (suc n) _ n t2 h2 in
        let (t4, e4, h4) = client_gets c p n t3 h3 in
        (
          t4,
          λ m.
              run_client _ s t1 e1
              ∙ run_server _ t1 t2 (client_waits c p _ _ _ n t1 h1) e2
              ∙ run_server _ t2 t3 (client_waits c p _ _ _ n t2 h2) e3
              ∙ run_client m t3 t4 e4,
          subst (λ b. At c p (if b then idle (suc n) else finished) listening [] [] (suc n) t4)
              again h4,
        )

    -- Each exchange takes four steps.
    exchanges :
        (m n : ℕ) (s : Pair c)
        → At c p (idle n) listening [] [] n s
        → ((v : ℕ) → v ≤ m + n → fits p.reply v ≡ true)
        → At c p (idle (m + n)) listening [] [] (m + n) (run c p (4 * m) s)
    unfolding run
    exchanges zero n s h small = subst (λ x. At c p (idle x) listening [] [] x s) (omega arith) h
    exchanges (suc m) n s h small =
        let (t, now, g) = one_exchange n s h (small (suc n) (omega arith)) in
        let rest = exchanges m (suc n) t g (λ v l. small v (omega (arith, l))) in
        let four : 4 * suc m ≡ suc (suc (suc (suc (4 * m)))) = omega arith in
        let same : run c p (4 * m) t ≡ run c p (4 * suc m) s =
          sym (ap (λ x. run c p x s) four ∙ now (4 * m)) in
        let count : m + suc n ≡ suc m + n = omega arith in
        subst (λ x. At c p (idle x) listening [] [] x (run c p (4 * suc m) s)) count
          (subst (At c p (idle (m + suc n)) listening [] [] (m + suc n)) same rest)

    -- Where the values up to a number and their replies are within int, a pair of example tasks
    -- that repeat their exchange completes that many exchanges in four times as many steps: the
    -- log then holds each value with its reply, no message was lost, and the client is ready for
    -- the next.
    pub exchanges_complete :
        (n : ℕ)
        → ((v : ℕ) → v ≤ n → fits p.reply v ≡ true)
        → ((run c p (4 * n) (start c)).log ≡ rounds p.reply n)
          × ((run c p (4 * n) (start c)).lost ≡ 0)
          × ((run c p (4 * n) (start c)).client ≡ idle n)
    exchanges_complete n small =
        let h = exchanges n 0 (start c) (start-At c p) (λ v l. small v (omega (arith, l))) in
        let total : n + 0 ≡ n = omega arith in
        (h.log ∙ ap (rounds p.reply) total, h.lost, h.client ∙ ap idle total)
