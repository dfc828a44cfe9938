-- ===== src/Examples/Counter/Invariant.antt =====
-- The invariant of the two workers of the mutex example, kept by every step of either.
use edge_aware_tasks_rtos.Prelude.{
  ℕ, suc, ◌+◌, ◌≡◌, refl, sym, ◌∙◌, ap, subst, Bool, true, false, not, ◌&&◌, ◌||◌, Option, none,
  some, ltb, leb, ◌==◌, ==_iff, arith, inl, inr, Bool-cases,
}
use edge_aware_tasks_rtos.Examples.Counter.{
  Lock, Worker, outside, inside, loaded, stored, worker_step, Workers, initial, by_first, by_second,
  Steps, no_step, one_step,
}

abbrev pub holds : Worker → Bool
holds (outside i) = false
holds _ = true

-- The increments that a worker has made.
abbrev pub made : Worker → ℕ
made (outside i) = i
made (inside i) = i
made (loaded i v) = i
made (stored i) = i + 1

abbrev pub in_rounds : Worker → Bool
in_rounds (outside i) = leb i 3
in_rounds (inside i) = ltb i 3
in_rounds (loaded i v) = ltb i 3
in_rounds (stored i) = ltb i 3

-- What a worker has read is still the counter.
abbrev pub is_current : Worker → ℕ → Bool
is_current (loaded i v) x = v == x
is_current _ x = true

free_is_current : (w : Worker) (x : ℕ) → holds w ≡ false → is_current w x ≡ true
free_is_current (outside i) x h = refl
free_is_current (inside i) x h = ground (arith, h)
free_is_current (loaded i v) x h = ground (arith, h)
free_is_current (stored i) x h = ground (arith, h)

or_comm : (a b : Bool) → (a || b) ≡ (b || a)
or_comm true true = refl
or_comm true false = refl
or_comm false true = refl
or_comm false false = refl

and_comm : (a b : Bool) → (a && b) ≡ (b && a)
and_comm true true = refl
and_comm true false = refl
and_comm false true = refl
and_comm false false = refl

not-true : (a : Bool) → not a ≡ true → a ≡ false
not-true true h = ground (arith, h)
not-true false h = refl

next_round : (i : ℕ) → ltb i 3 ≡ true → leb (suc i) 3 ≡ true
next_round i h = ground (arith, h)

module _ (l : Lock) where
  pub record Inv (a b : Worker) (m : l.Mutex) (x : ℕ) : Type 0 where
    pub free : l.is_free m ≡ not (holds a || holds b)
    pub apart : (holds a && holds b) ≡ false
    pub total : x ≡ made a + made b
    pub first_rounds : in_rounds a ≡ true
    pub second_rounds : in_rounds b ≡ true
    pub first_current : is_current a x ≡ true
    pub second_current : is_current b x ≡ true

  pub flip : (a b : Worker) (m : l.Mutex) (x : ℕ) → Inv a b m x → Inv b a m x
  flip a b m x v = record {
    free = v.free ∙ ap not (or_comm (holds a) (holds b));
    apart = and_comm (holds b) (holds a) ∙ v.apart;
    total = omega (arith, v.total);
    first_rounds = v.second_rounds;
    second_rounds = v.first_rounds;
    first_current = v.second_current;
    second_current = v.first_current;
  }

  -- The worker, the mutex and the counter after a step.
  abbrev Moved : Type 0
  Moved = Worker × l.Mutex × ℕ

  abbrev InvAt : Worker → Moved → Type 0
  InvAt b q = Inv q.0 b q.1 q.2

  known :
      (b : Worker) (o : Option Moved) (q r : Moved)
      → o ≡ some q
      → InvAt b q
      → o ≡ some r
      → InvAt b r
  known b o q r e v f = let same : q ≡ r = cc in subst (InvAt b) same v

  idle : (b : Worker) (o : Option Moved) (r : Moved) → o ≡ none → o ≡ some r → InvAt b r
  idle b o r e f = ground (arith, e, f)

  outside_takes :
      (i : ℕ) (b : Worker) (m : l.Mutex) (x : ℕ) (r : Moved)
      → Inv (outside i) b m x
      → ltb i 3 ≡ true
      → l.is_free m ≡ true
      → worker_step l (outside i) m x ≡ some r
      → InvAt b r
  unfolding worker_step
  outside_takes i b m x r v more open_now e =
      let (n, took, held) = l.take_free m open_now in
      let alone = not-true (holds b) (sym v.free ∙ open_now) in
      known b (worker_step l (outside i) m x) (inside i, n, x) r
        (rw (more, worker_step) (rw took refl))
        (record {
          free = held;
          apart = alone;
          total = v.total;
          first_rounds = more;
          second_rounds = v.second_rounds;
          first_current = refl;
          second_current = v.second_current;
        })
        e

  outside_waits :
      (i : ℕ) (m : l.Mutex) (x : ℕ) → l.is_free m ≡ false → worker_step l (outside i) m x ≡ none
  unfolding worker_step
  outside_waits i m x held = elim (Bool-cases (ltb i 3)) [
    | inl more ↦ rw (more, worker_step) (rw (l.take_held m held) refl)
    | inr done_all ↦ rw (done_all, worker_step) refl
  ]

  outside_ends :
      (i : ℕ) (m : l.Mutex) (x : ℕ) → ltb i 3 ≡ false → worker_step l (outside i) m x ≡ none
  unfolding worker_step
  outside_ends i m x over = rw (over, worker_step) refl

  keep :
      (a b : Worker) (m : l.Mutex) (x : ℕ) (r : Moved)
      → Inv a b m x
      → worker_step l a m x ≡ some r
      → InvAt b r
  unfolding worker_step
  keep (outside i) b m x r v e = elim (Bool-cases (ltb i 3)) [
    | inr over ↦ idle b _ r (outside_ends i m x over) e
    | inl more ↦ elim (Bool-cases (l.is_free m)) [
      | inr held ↦ idle b _ r (outside_waits i m x held) e
      | inl open_now ↦ outside_takes i b m x r v more open_now e
    ]
  ]
  keep (inside i) b m x r v e =
      known b (worker_step l (inside i) m x) (loaded i x, m, x) r refl
        (record {
          free = v.free;
          apart = v.apart;
          total = v.total;
          first_rounds = v.first_rounds;
          second_rounds = v.second_rounds;
          first_current = (==_iff x x).1 refl;
          second_current = v.second_current;
        })
        e
  keep (loaded i y) b m x r v e =
      known b (worker_step l (loaded i y) m x) (stored i, m, y + 1) r refl
        (record {
          free = v.free;
          apart = v.apart;
          total = omega (arith, v.total, (==_iff y x).0 v.first_current);
          first_rounds = v.first_rounds;
          second_rounds = v.second_rounds;
          first_current = refl;
          second_current = free_is_current b (y + 1) v.apart;
        })
        e
  keep (stored i) b m x r v e =
      known b (worker_step l (stored i) m x) (outside (suc i), l.give m, x) r refl
        (record {
          free = l.give_free m ∙ sym (ap not v.apart);
          apart = refl;
          total = omega (arith, v.total);
          first_rounds = next_round i v.first_rounds;
          second_rounds = v.second_rounds;
          first_current = refl;
          second_current = v.second_current;
        })
        e

  initial-Inv : Inv (initial l).first (initial l).second (initial l).mutex (initial l).counter
  unfolding initial
  initial-Inv = record {
    free = l.fresh_free;
    apart = refl;
    total = omega arith;
    first_rounds = refl;
    second_rounds = refl;
    first_current = refl;
    second_current = refl;
  }

  pub steps-Inv : (s : Workers l) → Steps l (initial l) s → Inv s.first s.second s.mutex s.counter
  steps-Inv s no_step = initial-Inv
  steps-Inv s (one_step {t} path (by_first e)) =
      keep t.first t.second t.mutex t.counter _ (steps-Inv t path) e
  steps-Inv s (one_step {t} path (by_second {w} {m} {x} e)) = flip w t.first m x (
      keep t.second t.first t.mutex t.counter (w, m, x)
        (flip t.first t.second t.mutex t.counter (steps-Inv t path)) e)
