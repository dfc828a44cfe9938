-- ===== src/Witnesses/Applications.antt =====
-- The theorems on the example applications at concrete inputs.
use edge_aware_tasks_rtos.Prelude.{
  zero, suc, Bool, true, Option, none, inl, inr, Option-cases, ℕ, ◌*◌, ◌/◌, ◌≤◌, ◌≡◌, refl, pos,
  false, not, is_some, some, codes, arith,
}
use edge_aware_tasks_rtos.Samples.{
  sample_env, sample_env-IsGenerous, sample_kernel-GivesMutexes, sample_channel,
}
use edge_aware_tasks_rtos.TaskManager.Access.{is_client_task}
use edge_aware_tasks_rtos.TaskManager.Spec.{default_spec}
use edge_aware_tasks_rtos.Facade.{boot_app}
use edge_aware_tasks_rtos.Examples.Specs.{happy_task_spec, advanced_task_spec}
use edge_aware_tasks_rtos.Examples.Setup.{set_up, set_up_local_first, set_up_advanced}
use edge_aware_tasks_rtos.Examples.Setup.Outcome.{IsSetUp, happy_path_set_up, advanced_set_up}
use edge_aware_tasks_rtos.Examples.Counter
use edge_aware_tasks_rtos.Examples.Counter.{Lock, Workers, worker_step, by_first, by_second}
use edge_aware_tasks_rtos.Examples.Counter.Ends.{counter_ends}
use edge_aware_tasks_rtos.Examples.Exchange.{
  Pair, add_thousand, hello, awaiting, idle, start, client_step, server_step, client_turn,
  client_send, Steps, no_step, one_step, by_client, run, steps_taken,
}
use edge_aware_tasks_rtos.Examples.Exchange.Invariant.{rounds}
use edge_aware_tasks_rtos.Examples.Exchange.Safety.{replies_match, single_exchange_ends}
use edge_aware_tasks_rtos.Examples.Exchange.Liveness.{one_task_goes_on, exchanges_complete}

happy_path_set_up_example :
    (i : ℕ) × ((set_up_local_first sample_env (happy_task_spec 1 2 default_spec) boot_app).0
      ≡ set_up (pos i))
    × IsSetUp
        (codes "HappyTask-cl-0")
        i
        (set_up_local_first sample_env (happy_task_spec 1 2 default_spec) boot_app).1
happy_path_set_up_example =
    happy_path_set_up sample_env sample_env-IsGenerous 1 2 default_spec boot_app
      sample_kernel-GivesMutexes refl

advanced_set_up_example :
    (i : ℕ) × ((set_up_advanced sample_env (advanced_task_spec 1 2 default_spec) boot_app).0
      ≡ set_up (pos i))
    × IsSetUp
        (codes "AdvancedTask-cl")
        i
        (set_up_advanced sample_env (advanced_task_spec 1 2 default_spec) boot_app).1
    × (is_client_task (some (codes "AdvancedTask-cl")) ≡ false)
advanced_set_up_example =
    advanced_set_up sample_env sample_env-IsGenerous 1 2 default_spec boot_app
      sample_kernel-GivesMutexes refl

abbrev at_first : Pair sample_channel
at_first = start sample_channel

-- The client has sent its first value.
abbrev one_sent : Pair sample_channel
one_sent = record at_first { client = awaiting 1; to_server = some 1 }

first_send : client_step sample_channel add_thousand at_first ≡ some one_sent
unfolding client_step client_turn client_send start
first_send = refl

abbrev one_path : Steps sample_channel add_thousand at_first one_sent
one_path = one_step no_step (by_client first_send)

replies_match_example :
    (one_sent.log
      ≡ rounds add_thousand.reply (steps_taken sample_channel add_thousand one_path / 4))
    × (one_sent.lost ≡ 0)
replies_match_example = replies_match sample_channel add_thousand one_sent one_path

first_hello : client_step sample_channel hello at_first ≡ some one_sent
unfolding client_step client_turn client_send start
first_hello = refl

abbrev hello_path : Steps sample_channel hello at_first one_sent
hello_path = one_step no_step (by_client first_hello)

single_exchange_ends_example : steps_taken sample_channel hello hello_path ≤ 4
unfolding hello
single_exchange_ends_example = single_exchange_ends sample_channel hello one_sent hello_path refl

one_task_goes_on_example :
    is_some (client_step sample_channel add_thousand one_sent)
    ≡ not (is_some (server_step sample_channel add_thousand one_sent))
unfolding add_thousand start
one_task_goes_on_example =
    one_task_goes_on sample_channel add_thousand one_sent one_path (λ h. ground (arith, h)) refl

exchanges_complete_example :
    ((run sample_channel add_thousand (4 * 2) at_first).log ≡ rounds add_thousand.reply 2)
    × ((run sample_channel add_thousand (4 * 2) at_first).lost ≡ 0)
    × ((run sample_channel add_thousand (4 * 2) at_first).client ≡ idle 2)
unfolding add_thousand
exchanges_complete_example =
    exchanges_complete sample_channel add_thousand refl 2 (λ v l. ground (arith, l))

-- A mutex that is free or not.
abbrev take_mutex : Bool → Option Bool
take_mutex true = some false
take_mutex false = none

take_mutex_free : (m : Bool) → m ≡ true → (n : Bool) × (take_mutex m ≡ some n) × (n ≡ false)
take_mutex_free m h = (false, rw h refl, refl)

take_mutex_held : (m : Bool) → m ≡ false → take_mutex m ≡ none
take_mutex_held m h = rw h refl

abbrev sample_lock : Lock
sample_lock = record {
  Mutex = Bool;
  fresh = true;
  take = take_mutex;
  give = λ m. true;
  is_free = λ m. m;
  fresh_free = refl;
  take_free = take_mutex_free;
  take_held = take_mutex_held;
  give_free = λ m. refl;
}

-- The next steps of one worker, as many as it can take.
first_turns : ℕ → Workers sample_lock → Workers sample_lock
first_turns zero s = s
first_turns (suc n) s = elim (worker_step sample_lock s.first s.mutex s.counter) [
  | none ↦ s
  | some q ↦ first_turns n (record s { first = q.0; mutex = q.1; counter = q.2 })
]

second_turns : ℕ → Workers sample_lock → Workers sample_lock
second_turns zero s = s
second_turns (suc n) s = elim (worker_step sample_lock s.second s.mutex s.counter) [
  | none ↦ s
  | some q ↦ second_turns n (record s { second = q.0; mutex = q.1; counter = q.2 })
]

first_turns-Steps :
    (n : ℕ) (r s : Workers sample_lock)
    → Counter.Steps sample_lock r s
    → Counter.Steps sample_lock r (first_turns n s)
unfolding first_turns
first_turns-Steps zero r s path = path
first_turns-Steps (suc n) r s path =
    elim (Option-cases (worker_step sample_lock s.first s.mutex s.counter)) [
      | inl e ↦ rw (e, first_turns) path
      | inr (q, e) ↦
          rw (e, first_turns)
            (first_turns-Steps n r (record s { first = q.0; mutex = q.1; counter = q.2 })
              (Counter.one_step path (by_first e)))
    ]

second_turns-Steps :
    (n : ℕ) (r s : Workers sample_lock)
    → Counter.Steps sample_lock r s
    → Counter.Steps sample_lock r (second_turns n s)
unfolding second_turns
second_turns-Steps zero r s path = path
second_turns-Steps (suc n) r s path =
    elim (Option-cases (worker_step sample_lock s.second s.mutex s.counter)) [
      | inl e ↦ rw (e, second_turns) path
      | inr (q, e) ↦
          rw (e, second_turns)
            (second_turns-Steps n r (record s { second = q.0; mutex = q.1; counter = q.2 })
              (Counter.one_step path (by_second e)))
    ]

abbrev first_done : Workers sample_lock
first_done = first_turns 12 (Counter.initial sample_lock)

abbrev both_done : Workers sample_lock
both_done = second_turns 12 first_done

both_done_path : Counter.Steps sample_lock (Counter.initial sample_lock) both_done
both_done_path =
    second_turns-Steps 12 _ first_done
      (first_turns-Steps 12 _ (Counter.initial sample_lock) Counter.no_step)

counter_ends_example : (both_done.counter ≡ 6) × (sample_lock.is_free both_done.mutex ≡ true)
unfolding first_turns second_turns worker_step Counter.initial
counter_ends_example = counter_ends sample_lock both_done both_done_path refl refl
