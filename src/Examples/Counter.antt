-- ===== src/Examples/Counter.antt =====
-- The shared counter of components/EEAA/examples/port/port_rtos_example.c: two workers that add to it
-- three times each, under a mutex. The increment is a read and a write.
pub mod Invariant
pub mod Ends
use edge_aware_tasks_rtos.Prelude.{
  ℕ, suc, ◌+◌, ◌≡◌, Bool, true, false, Option, none, some, ltb, if◌then◌else◌,
}

-- What the workers use of a FreeRTOS mutex that was created; none is a call that has to wait.
pub record Lock : Type 1 where
  pub Mutex : Type 0
  pub fresh : Mutex
  pub take : Mutex → Option Mutex
  pub give : Mutex → Mutex
  pub is_free : Mutex → Bool
  pub fresh_free : is_free fresh ≡ true
  pub take_free :
      (m : Mutex) → is_free m ≡ true → (n : Mutex) × (take m ≡ some n) × (is_free n ≡ false)
  pub take_held : (m : Mutex) → is_free m ≡ false → take m ≡ none
  pub give_free : (m : Mutex) → is_free (give m) ≡ true

-- A worker in round `i`: before it enters the mutex, inside, with the counter read, with the counter
-- written.
pub data Worker : Type 0 where
  outside : (i : ℕ) → Worker
  inside : (i : ℕ) → Worker
  loaded : (i value : ℕ) → Worker
  stored : (i : ℕ) → Worker

module _ (l : Lock) where
  -- The next step of a worker: itself, the mutex and the counter afterwards; none while it waits,
  -- and at its end.
  unfoldable pub worker_step : Worker → l.Mutex → (counter : ℕ) → Option (Worker × l.Mutex × ℕ)
  worker_step (outside i) m x =
      if ltb i 3 then elim (l.take m) [ none ↦ none | some n ↦ some (inside i, n, x) ] else none
  worker_step (inside i) m x = some (loaded i x, m, x)
  worker_step (loaded i v) m x = some (stored i, m, v + 1)
  worker_step (stored i) m x = some (outside (suc i), l.give m, x)

  pub record Workers : Type 0 where
    pub first : Worker
    pub second : Worker
    pub mutex : l.Mutex
    pub counter : ℕ

  unfoldable pub initial : Workers
  initial = record { first = outside 0; second = outside 0; mutex = l.fresh; counter = 0 }

  -- One worker goes on, whichever the scheduler takes.
  pub data Step (s : Workers) : Workers → Type 0 where
    by_first :
        {w : Worker} {m : l.Mutex} {x : ℕ}
        → worker_step s.first s.mutex s.counter ≡ some (w, m, x)
        → Step s (record s { first = w; mutex = m; counter = x })
    by_second :
        {w : Worker} {m : l.Mutex} {x : ℕ}
        → worker_step s.second s.mutex s.counter ≡ some (w, m, x)
        → Step s (record s { second = w; mutex = m; counter = x })

  pub data Steps (s : Workers) : Workers → Type 0 where
    no_step : Steps s s
    one_step : {t u : Workers} → Steps s t → Step t u → Steps s u
