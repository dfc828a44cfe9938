-- ===== src/Examples/Exchange/Safety.antt =====
-- What holds of a pair of example tasks under every schedule.
use edge_aware_tasks_rtos.Prelude.{
  ℕ, zero, suc, ◌+◌, ◌*◌, ◌/◌, ◌<◌, ◌≤◌, ◌≡◌, refl, ◌∙◌, ap, subst, false, Option, none, some, [],
  ◌∷◌, ltb, arith, inl, inr, Bool-cases, length, if◌then◌else◌,
}
use edge_aware_tasks_rtos.Examples.Exchange.{
  Channel, Protocol, idle, awaiting, finished, listening, int_limit, Pair, start, steps_taken,
  client_turn, client_step, server_turn, server_step, Step, by_client, by_server, Steps, no_step,
  one_step,
}
use edge_aware_tasks_rtos.Examples.Exchange.Invariant.{
  rounds, At, Phase, taken, Allowed, resting, sent, answering, answered, ended, server_waits,
  client_waits, finished_stops, idle_sends, server_takes, server_answers, client_gets, next_client,
}

pub length-rounds : (f : ℕ → ℕ) (n : ℕ) → length (rounds f n) ≡ n
unfolding rounds
length-rounds f zero = refl
length-rounds f (suc n) = ap suc (length-rounds f n)

module _ (c : Channel) (p : Protocol) where
  pub start-At : At c p (idle 0) listening [] [] 0 (start c)
  unfolding start rounds
  start-At = record {
    client = refl;
    server = refl;
    to_server = c.contents-fresh;
    to_client = c.contents-fresh;
    log = refl;
    lost = refl;
  }

  -- A phase that takes `m` steps to reach.
  abbrev PhaseAt : ℕ → Pair c → Type 0
  PhaseAt m s = (q : Phase c p s) × (taken c p q ≡ m)

  -- A step that is known goes where it is known to go.
  determined :
      (m : ℕ) (o : Option (Pair c)) (u t : Pair c)
      → o ≡ some u
      → PhaseAt m u
      → o ≡ some t
      → PhaseAt m t
  determined m o u t e h f = let same : u ≡ t = cc in subst (PhaseAt m) same h

  stuck : (m : ℕ) (o : Option (Pair c)) (t : Pair c) → o ≡ none → o ≡ some t → PhaseAt m t
  stuck m o t e f = ground (arith, e, f)

  next-Phase :
      (n : ℕ) (t : Pair c)
      → Allowed c p n
      → At c p (next_client c p (suc n)) listening [] [] (suc n) t
      → PhaseAt (4 * suc n) t
  unfolding taken
  next-Phase n t a h = elim (Bool-cases p.repeats) [
    | inl on ↦ (
      resting (suc n) (λ off. ground (arith, on, off))
          (subst (λ b. At c p (if b then idle (suc n) else finished) listening [] [] (suc n) t) on
            h),
      refl,
    )
    | inr off ↦
        let one : suc n ≡ 1 = omega (arith, a off) in
        let now =
          subst (λ b. At c p (if b then idle (suc n) else finished) listening [] [] (suc n) t) off
            h in
        (ended off (subst (λ m. At c p finished listening [] [] m t) one now), omega (arith, one))
  ]

  idle_overflows :
      (n : ℕ) (s : Pair c)
      → At c p (idle n) listening [] [] n s
      → ltb (n + 1) int_limit ≡ false
      → client_step c p s ≡ none
  unfolding client_step client_turn
  idle_overflows n s h big = ap (λ x. client_turn c p x s) h.client ∙ rw big refl

  reply_overflows :
      (v n : ℕ) (s : Pair c)
      → At c p (awaiting v) listening (v ∷ []) [] n s
      → ltb (p.reply v) int_limit ≡ false
      → server_step c p s ≡ none
  unfolding server_step server_turn
  reply_overflows v n s h big =
      let (q, got, holds) = c.receive_full v s.to_server h.to_server in
      ap (λ y. server_turn c p y s) h.server ∙ rw (got, server_turn) (rw big refl)

  step-Phase : (s t : Pair c) (q : Phase c p s) → Step c p s t → PhaseAt (suc (taken c p q)) t
  unfolding taken
  step-Phase s t (resting n a h) (by_client e) = elim (Bool-cases (ltb (n + 1) int_limit)) [
    | inl small ↦
        let (u, f, g) = idle_sends c p n s h small in
        determined _ _ u t f (sent n a g, omega arith) e
    | inr big ↦ stuck _ _ t (idle_overflows n s h big) e
  ]
  step-Phase s t (resting n a h) (by_server e) = stuck _ _ t (server_waits c p _ _ n s h) e
  step-Phase s t (sent n a h) (by_client e) = stuck _ _ t (client_waits c p _ _ _ n s h) e
  step-Phase s t (sent n a h) (by_server e) = elim (Bool-cases (ltb (p.reply (suc n)) int_limit)) [
    | inl small ↦
        let (u, f, g) = server_takes c p (suc n) n s h small in
        determined _ _ u t f (answering n a g, omega arith) e
    | inr big ↦ stuck _ _ t (reply_overflows (suc n) n s h big) e
  ]
  step-Phase s t (answering n a h) (by_client e) = stuck _ _ t (client_waits c p _ _ _ n s h) e
  step-Phase s t (answering n a h) (by_server e) =
      let (u, f, g) = server_answers c p (suc n) _ n s h in
      determined _ _ u t f (answered n a g, omega arith) e
  step-Phase s t (answered n a h) (by_client e) =
      let (u, f, g) = client_gets c p n s h in
      let (q, count) = next-Phase n u a g in
      let same : 4 * suc n ≡ suc (4 * n + 3) = omega arith in
      determined _ _ u t f (q, count ∙ same) e
  step-Phase s t (answered n a h) (by_server e) = stuck _ _ t (server_waits c p _ _ n s h) e
  step-Phase s t (ended off h) (by_client e) = stuck _ _ t (finished_stops c p _ _ _ 1 s h) e
  step-Phase s t (ended off h) (by_server e) = stuck _ _ t (server_waits c p _ _ 1 s h) e

  pub steps-Phase : (s : Pair c) (path : Steps c p (start c) s) → PhaseAt (steps_taken c p path) s
  unfolding steps_taken taken
  steps-Phase s no_step = (resting 0 (λ off. refl) start-At, refl)
  steps-Phase s (one_step {t} path step) =
      let (q, count) = steps-Phase t path in
      let (r, now) = step-Phase t s q step in (r, now ∙ ap suc count)

  -- What was logged on the way to a phase.
  logged :
      (s : Pair c) (n k m : ℕ)
      → s.log ≡ rounds p.reply n
      → s.lost ≡ 0
      → 4 * n + k ≡ m
      → k < 4
      → (s.log ≡ rounds p.reply (m / 4)) × (s.lost ≡ 0)
  logged s n k m e l count small =
      let quarter : n ≡ m / 4 = omega arith in (e ∙ ap (rounds p.reply) quarter, l)

  Phase-logged :
      (s : Pair c) (m : ℕ) (q : Phase c p s)
      → taken c p q ≡ m
      → (s.log ≡ rounds p.reply (m / 4)) × (s.lost ≡ 0)
  unfolding taken
  Phase-logged s m (resting n a h) e = logged s n 0 m h.log h.lost (omega arith) (omega arith)
  Phase-logged s m (sent n a h) e = logged s n 1 m h.log h.lost e (omega arith)
  Phase-logged s m (answering n a h) e = logged s n 2 m h.log h.lost e (omega arith)
  Phase-logged s m (answered n a h) e = logged s n 3 m h.log h.lost e (omega arith)
  Phase-logged s m (ended off h) e = logged s 1 0 m h.log h.lost (omega arith) (omega arith)

  -- After any steps of the two tasks of an example pair, in any order, the exchanges logged are
  -- those of the values from 1 on, each with its own reply and none twice; there is one for every
  -- four steps, and no send found a full queue, whether or not it would have waited. The queues
  -- are any that hold one message.
  pub replies_match :
      (s : Pair c) (path : Steps c p (start c) s)
      → (s.log ≡ rounds p.reply (steps_taken c p path / 4)) × (s.lost ≡ 0)
  replies_match s path =
      let (q, count) = steps-Phase s path in Phase-logged s (steps_taken c p path) q count

  few_taken : (s : Pair c) (q : Phase c p s) → p.repeats ≡ false → taken c p q ≤ 4
  unfolding taken
  few_taken s (resting n a h) once = omega (arith, a once)
  few_taken s (sent n a h) once = omega (arith, a once)
  few_taken s (answering n a h) once = omega (arith, a once)
  few_taken s (answered n a h) once = omega (arith, a once)
  few_taken s (ended off h) once = omega arith

  -- A pair whose client makes a single exchange, as in the hello-world example, takes at most four
  -- steps in any order.
  pub single_exchange_ends :
      (s : Pair c) (path : Steps c p (start c) s) → p.repeats ≡ false → steps_taken c p path ≤ 4
  single_exchange_ends s path once =
      let (q, count) = steps-Phase s path in
      let few = few_taken s q once in omega (arith, count, few)
