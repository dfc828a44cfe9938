-- ===== src/Examples/Counter/Ends.antt =====
-- Where the workers of the mutex example stop.
use edge_aware_tasks_rtos.Prelude.{
  ℕ, ◌≡◌, refl, ◌∙◌, Bool, true, false, not, ◌||◌, none, ltb, leb, arith, inl, inr, Bool-cases,
}
use edge_aware_tasks_rtos.Examples.Counter.{
  Lock, Worker, outside, inside, loaded, stored, worker_step, Workers, initial, Steps,
}
use edge_aware_tasks_rtos.Examples.Counter.Invariant.{holds, made, Inv, flip, steps-Inv}

none_hold : (a b : Bool) → a ≡ false → b ≡ false → not (a || b) ≡ true
none_hold a b p q = rw (p, q) refl

module _ (l : Lock) where
  last_round :
      (i : ℕ) (m : l.Mutex) (x : ℕ)
      → leb i 3 ≡ true
      → l.is_free m ≡ true
      → worker_step l (outside i) m x ≡ none
      → i ≡ 3
  unfolding worker_step
  last_round i m x rounds open_now e =
      let (n, took, held) = l.take_free m open_now in
      elim (Bool-cases (ltb i 3)) [
        | inr over ↦ ground (arith, rounds, over)
        | inl more ↦ ground (arith, e, more, took)
      ]

  -- A worker that cannot go on is outside; if the mutex is free, it is at its end.
  at_end :
      (a b : Worker) (m : l.Mutex) (x : ℕ)
      → Inv l a b m x
      → worker_step l a m x ≡ none
      → (holds a ≡ false) × (l.is_free m ≡ true → made a ≡ 3)
  unfolding worker_step
  at_end (outside i) b m x v e = (refl, λ open_now. last_round i m x v.first_rounds open_now e)
  at_end (inside i) b m x v e = ground (arith, e)
  at_end (loaded i y) b m x v e = ground (arith, e)
  at_end (stored i) b m x v e = ground (arith, e)

  -- When neither worker of the mutex example can go on, after any steps of the two in any order,
  -- the counter is 6 and the mutex is free: no increment is lost, and neither waits for the other
  -- for ever. The mutex is any that excludes.
  pub counter_ends :
      (s : Workers l)
      → Steps l (initial l) s
      → worker_step l s.first s.mutex s.counter ≡ none
      → worker_step l s.second s.mutex s.counter ≡ none
      → (s.counter ≡ 6) × (l.is_free s.mutex ≡ true)
  counter_ends s path first_stops second_stops =
      let v = steps-Inv l s path in
      let (out1, end1) = at_end s.first s.second s.mutex s.counter v first_stops in
      let (out2, end2) =
        at_end s.second s.first s.mutex s.counter (flip l s.first s.second s.mutex s.counter v)
          second_stops in
      let open_now = v.free ∙ none_hold (holds s.first) (holds s.second) out1 out2 in
      (omega (arith, v.total, end1 open_now, end2 open_now), open_now)
