-- ===== src/Examples/Stream/Ends.antt =====
-- Where the producer and the consumer stop, and what was received until then.
use edge_aware_tasks_rtos.Prelude.{
  ℕ, zero, suc, ◌+◌, ◌<◌, ◌≤◌, ◌≡◌, refl, sym, ◌∙◌, ap, subst, true, false, Option, none, some,
  List, [], ◌∷◌, ◌++◌, length, length-append, ltb, arith, inl, inr, Bool-cases,
}
use mathlib.Core.List.{append_assoc, append-nil}
use edge_aware_tasks_rtos.Examples.Stream.{
  Message, hello_message, Fifo, queue_depth, rounds, Stream, empty_stream, producer_step,
  consumer_step, Step, by_producer, by_consumer, Steps, no_step, one_step, steps_taken,
}

-- The first messages, in order.
abbrev pub hellos : ℕ → List Message
hellos zero = []
hellos (suc n) = hellos n ++ hello_message n ∷ []

length-hellos : (n : ℕ) → length (hellos n) ≡ n
length-hellos zero = refl
length-hellos (suc n) =
    omega (arith, length-append (hellos n) (hello_message n ∷ []), length-hellos n)

module _ (f : Fifo queue_depth) where
  -- What was received and what is still in the queue are the messages sent, in order.
  record Inv (s : Stream f) : Type 0 where
    order : s.received ++ f.contents s.queue ≡ hellos s.sent
    count : length s.received ≡ s.taken
    sent_rounds : s.sent ≤ rounds
    taken_rounds : s.taken ≤ rounds

  lengths : (s : Stream f) → Inv s → s.taken + length (f.contents s.queue) ≡ s.sent
  lengths s v = omega (
    arith,
    length-append s.received (f.contents s.queue),
    ap length v.order,
    length-hellos s.sent,
    v.count,
  )

  -- A state that a step leads to.
  abbrev After : Stream f → Stream f → Type 0
  After s t = Inv t × (t.sent + t.taken ≡ suc (s.sent + s.taken))

  producer_sends :
      (s : Stream f)
      → Inv s
      → s.sent < rounds
      → (t : Stream f) × (producer_step f s ≡ some t) × After s t
  unfolding producer_step
  producer_sends s v more =
      let (q, went, now) =
        f.send_room (hello_message s.sent) s.queue (omega (arith, lengths s v, more)) in
      let under : ltb s.sent rounds ≡ true = ground (arith, more) in
      (
        record s { sent = suc s.sent; queue = q },
        rw under (rw went refl),
        (
          record {
            order =
                ap (λ l. s.received ++ l) now
                ∙ sym (append_assoc s.received (f.contents s.queue) (hello_message s.sent ∷ []))
                ∙ ap (λ l. l ++ hello_message s.sent ∷ []) v.order;
            count = v.count;
            sent_rounds = omega (arith, more);
            taken_rounds = v.taken_rounds;
          },
          omega arith,
        ),
      )

  consumer_takes :
      (s : Stream f) (x : Message) (xs : List Message)
      → Inv s
      → s.taken < rounds
      → f.contents s.queue ≡ x ∷ xs
      → (t : Stream f) × (consumer_step f s ≡ some t) × After s t
  unfolding consumer_step
  consumer_takes s x xs v more head =
      let (q, got, now) = f.receive_first x xs s.queue head in
      let under : ltb s.taken rounds ≡ true = ground (arith, more) in
      (
        record s { taken = suc s.taken; queue = q; received = s.received ++ x ∷ [] },
        rw under (rw got refl),
        (
          record {
            order =
                append_assoc s.received (x ∷ []) (f.contents q)
                ∙ ap (λ l. s.received ++ x ∷ l) now
                ∙ ap (λ l. s.received ++ l) (sym head)
                ∙ v.order;
            count = omega (arith, length-append s.received (x ∷ []), v.count);
            sent_rounds = v.sent_rounds;
            taken_rounds = omega (arith, more);
          },
          omega arith,
        ),
      )

  led_to :
      (s u t : Stream f) (o : Option (Stream f)) → o ≡ some u → After s u → o ≡ some t → After s t
  led_to s u t o e h g = let same : u ≡ t = cc in subst (After s) same h

  producer_over : (s : Stream f) → ltb s.sent rounds ≡ false → producer_step f s ≡ none
  unfolding producer_step
  producer_over s over = rw over refl

  consumer_over : (s : Stream f) → ltb s.taken rounds ≡ false → consumer_step f s ≡ none
  unfolding consumer_step
  consumer_over s over = rw over refl

  consumer_waits : (s : Stream f) → f.contents s.queue ≡ [] → consumer_step f s ≡ none
  unfolding consumer_step
  consumer_waits s empty = elim (Bool-cases (ltb s.taken rounds)) [
    | inl under ↦ rw under (rw (f.receive_empty s.queue empty) refl)
    | inr over ↦ rw over refl
  ]

  no_way : (s t : Stream f) (o : Option (Stream f)) → o ≡ none → o ≡ some t → After s t
  no_way s t o e g = ground (arith, e, g)

  consumer_goes :
      (l : List Message) (s t : Stream f)
      → Inv s
      → f.contents s.queue ≡ l
      → consumer_step f s ≡ some t
      → After s t
  consumer_goes [] s t v held e = no_way s t _ (consumer_waits s held) e
  consumer_goes (x ∷ xs) s t v held e = elim (Bool-cases (ltb s.taken rounds)) [
    | inr over ↦ no_way s t _ (consumer_over s over) e
    | inl under ↦
        let (u, got, after) = consumer_takes s x xs v (ground (arith, under)) held in
        led_to s u t (consumer_step f s) got after e
  ]

  step-After : (s t : Stream f) → Inv s → Step f s t → After s t
  step-After s t v (by_consumer e) = consumer_goes (f.contents s.queue) s t v refl e
  step-After s t v (by_producer e) = elim (Bool-cases (ltb s.sent rounds)) [
    | inr over ↦ no_way s t _ (producer_over s over) e
    | inl under ↦
        let (u, got, after) = producer_sends s v (ground (arith, under)) in
        led_to s u t (producer_step f s) got after e
  ]

  empty_stream-Inv : Inv (empty_stream f)
  unfolding empty_stream
  empty_stream-Inv = record {
    order = f.contents-fresh;
    count = refl;
    sent_rounds = omega arith;
    taken_rounds = omega arith;
  }

  -- The invariant with the number of steps made.
  reached :
      (s : Stream f) (path : Steps f (empty_stream f) s)
      → Inv s × (steps_taken f path ≡ s.sent + s.taken)
  unfolding empty_stream
  reached s no_step = (empty_stream-Inv, refl)
  reached s (one_step {t} p e) =
      let (v, made) = reached t p in
      let (w, next) = step-After t s v e in (w, omega (arith, made, next))

  producer_stops : (s : Stream f) → Inv s → producer_step f s ≡ none → s.sent ≡ rounds
  producer_stops s v e = elim (Bool-cases (ltb s.sent rounds)) [
    | inr over ↦ ground (arith, over, v.sent_rounds)
    | inl under ↦
        let (u, got, after) = producer_sends s v (ground (arith, under)) in ground (arith, e, got)
  ]

  consumer_stops :
      (l : List Message) (s : Stream f)
      → Inv s
      → f.contents s.queue ≡ l
      → s.sent ≡ rounds
      → consumer_step f s ≡ none
      → f.contents s.queue ≡ []
  consumer_stops [] s v held sent e = held
  consumer_stops (x ∷ xs) s v held sent e = elim (Bool-cases (ltb s.taken rounds)) [
    | inr over ↦ absurd (
        let counted = ap length held in
        let total = lengths s v in
        let all : s.taken ≡ rounds = ground (arith, over, v.taken_rounds) in
        omega (arith, all, total, counted, sent))
    | inl under ↦
        let (u, got, after) = consumer_takes s x xs v (ground (arith, under)) held in
        ground (arith, e, got)
  ]

  -- When neither the producer nor the consumer of the queue example can go on, after any steps of
  -- the two in any order, the three messages have been received in the order in which they were
  -- sent, the queue is empty, and six steps were made. The queue is any that keeps up to five
  -- messages in order.
  pub stream_ends :
      (s : Stream f) (path : Steps f (empty_stream f) s)
      → producer_step f s ≡ none
      → consumer_step f s ≡ none
      → (s.received ≡ hello_message 0 ∷ hello_message 1 ∷ hello_message 2 ∷ [])
        × (f.contents s.queue ≡ [])
        × (steps_taken f path ≡ 6)
  stream_ends s path producer consumer =
      let (v, made) = reached s path in
      let sent = producer_stops s v producer in
      let empty = consumer_stops (f.contents s.queue) s v refl sent consumer in
      let total = lengths s v in
      (
        sym (append-nil s.received)
            ∙ ap (λ l. s.received ++ l) (sym empty)
            ∙ v.order
            ∙ ap hellos sent,
        empty,
        omega (arith, made, sent, total, ap length empty),
      )
