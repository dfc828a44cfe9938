-- ===== src/Samples.antt =====
-- A kernel that answers every request, with handles numbered by the calls made so far, and inputs
-- on which the witnesses stand.
use edge_aware_tasks_rtos.Prelude.{
  ℕ, ◌+◌, ◌≡◌, refl, true, false, Option, none, some, List, codes, length, pos, arith, [], ◌∷◌, ◌≤◌,
}
use edge_aware_tasks_rtos.Port.Kernel.{
  Kernel, Trace, allocated, freed, mutex_created, mutex_taken, mutex_given, mutex_deleted,
  queue_created, queue_deleted, queue_sent, queue_received, task_created, task_deleted,
  task_suspended, task_resumed, delayed, delayed_until,
}
use edge_aware_tasks_rtos.Port.Locks.{is_live}
use edge_aware_tasks_rtos.TaskManager.Types.{enriched, local_execution}
use edge_aware_tasks_rtos.TaskManager.System.{Env, default_hook}
use edge_aware_tasks_rtos.TaskManager.Table.{MonitorEntry}
use edge_aware_tasks_rtos.TaskManager.Invariant.{IsLawful}
use edge_aware_tasks_rtos.TaskManager.Create.Progress.{IsGenerous}
use edge_aware_tasks_rtos.Examples.Setup.Outcome.{GivesMutexes}
use edge_aware_tasks_rtos.Examples.Exchange.{Channel}
use edge_aware_tasks_rtos.TaskManager.PairArgs.{PairArgs}
use edge_aware_tasks_rtos.Offloader.Types.{
  Candidate, PolicyContext, mode_per_task, scheduler_fp, zero_config,
}
use edge_aware_tasks_rtos.TaskManager.Access.{zero_snapshot}

-- Above every block that was ever allocated.
unfoldable pub fresh_block : Trace → ℕ
fresh_block [] = 1
fresh_block (allocated (some b) ∷ t) = fresh_block t + b + 1
fresh_block (_ ∷ t) = fresh_block t

abbrev pub sample_kernel : Kernel
sample_kernel = record {
  mutex = λ t. some (length t + 1);
  malloc = λ t. some (fresh_block t);
  queue = λ t len size. some (length t + 1);
  send = λ t q item ticks. some tt;
  receive = λ t q ticks. none;
  waiting = λ t q. 0;
  task = λ t r. some (length t + 1);
  current_task = λ t. some 1000;
  task_by_name = λ t name. none;
  ms_to_ticks = λ ms. ms;
  max_delay = 0xFFFFFFFF;
}

abbrev pub sample_env : Env
sample_env = record { kernel = sample_kernel; hook = default_hook; others = λ t table. table }

abbrev pub sample_args : PairArgs
sample_args = record {
  task_name = some (codes "cam");
  priority = 2;
  client_code = some 1;
  server_code = some 2;
  client_stack = 2048;
  server_stack = 2048;
  core = 1;
  app_type = enriched;
  deadline_ms = 100;
  delay_weight = 0;
  energy_weight = 0;
  exec_site = local_execution;
  pair_spec = some (record { queue_depth = 1; message_size = 4 });
  host = some (codes "LOCAL_RUNTIME");
  period = 100;
  client_wcet = 10;
  server_wcet = 20;
}

abbrev pub sample_entry : MonitorEntry
sample_entry = record {
  name = codes "cam-cl-1";
  host = some (codes "LOCAL_RUNTIME");
  pair_id = 1;
  task_index = pos 0;
  peer_index = pos 1;
  exec_site = local_execution;
  core = 1;
  deadline_ms = 100;
  delay_weight = 0;
  energy_weight = 0;
  period = 100;
  wcet = 10;
}

abbrev pub sample_candidate : Candidate
sample_candidate = record {
  task_index = pos 2;
  pair_id = 1;
  snapshot = record zero_snapshot { valid = true; wcet = 100; period = 200; oe2el = 125 };
  runtime = some 4;
}

abbrev pub sample_context : PolicyContext
sample_context = record { config = zero_config; scheduler = scheduler_fp; mode = mode_per_task }

-- Every request to the sample kernel is answered.
pub sample_env-IsGenerous : IsGenerous sample_env
sample_env-IsGenerous = record {
  malloc = λ t. (fresh_block t, refl);
  queue = λ t len size. (length t + 1, refl);
  task = λ t r. (length t + 1, refl);
  allows = λ r name. refl;
  alone = λ t table. refl;
}

pub sample_kernel-GivesMutexes : GivesMutexes sample_kernel
sample_kernel-GivesMutexes t = (length t + 1, refl)

abbrev pub put : ℕ → Option ℕ → Option (Option ℕ)
put x none = some (some x)
put x (some _) = none

abbrev pub take_out : Option ℕ → Option (ℕ × Option ℕ)
take_out none = none
take_out (some x) = some (x, none)

abbrev pub held : Option ℕ → List ℕ
held none = []
held (some x) = x ∷ []

pub held_room :
    (x : ℕ) (q : Option ℕ) → held q ≡ [] → (r : Option ℕ) × (put x q ≡ some r) × (held r ≡ x ∷ [])
held_room x none h = (some x, refl, refl)
held_room x (some y) h = ground (arith, h)

pub held_full : (x y : ℕ) (q : Option ℕ) → held q ≡ y ∷ [] → put x q ≡ none
held_full x y none h = ground (arith, h)
held_full x y (some z) h = refl

pub take_empty : (q : Option ℕ) → held q ≡ [] → take_out q ≡ none
take_empty none h = refl
take_empty (some x) h = ground (arith, h)

pub take_full :
    (x : ℕ) (q : Option ℕ)
    → held q ≡ x ∷ []
    → (r : Option ℕ) × (take_out q ≡ some (x, r)) × (held r ≡ [])
take_full x none h = ground (arith, h)
take_full x (some y) h = (none, ground (arith, h), refl)

-- A queue with room for one message.
abbrev pub sample_channel : Channel
sample_channel = record {
  Queue = Option ℕ;
  fresh = none;
  send = put;
  receive = take_out;
  contents = held;
  contents-fresh = refl;
  send_room = held_room;
  send_full = held_full;
  receive_empty = take_empty;
  receive_full = take_full;
}

pub is_live-fresh_block : (t : Trace) (a : ℕ) → fresh_block t ≤ a → is_live a t ≡ false
unfolding fresh_block is_live
is_live-fresh_block [] a l = refl
is_live-fresh_block (allocated (some b) ∷ t) a l =
    ground (arith, is_live-fresh_block t a (omega (arith, l)), l)
is_live-fresh_block (allocated none ∷ t) a l = is_live-fresh_block t a l
is_live-fresh_block (mutex_created _ ∷ t) a l = is_live-fresh_block t a l
is_live-fresh_block (mutex_taken _ ∷ t) a l = is_live-fresh_block t a l
is_live-fresh_block (mutex_given _ ∷ t) a l = is_live-fresh_block t a l
is_live-fresh_block (mutex_deleted _ ∷ t) a l = is_live-fresh_block t a l
is_live-fresh_block (freed b ∷ t) a l = ground (arith, is_live-fresh_block t a l)
is_live-fresh_block (queue_created _ _ _ ∷ t) a l = is_live-fresh_block t a l
is_live-fresh_block (queue_deleted _ ∷ t) a l = is_live-fresh_block t a l
is_live-fresh_block (queue_sent _ _ ∷ t) a l = is_live-fresh_block t a l
is_live-fresh_block (queue_received _ _ ∷ t) a l = is_live-fresh_block t a l
is_live-fresh_block (task_created _ _ ∷ t) a l = is_live-fresh_block t a l
is_live-fresh_block (task_deleted _ ∷ t) a l = is_live-fresh_block t a l
is_live-fresh_block (task_suspended _ ∷ t) a l = is_live-fresh_block t a l
is_live-fresh_block (task_resumed _ ∷ t) a l = is_live-fresh_block t a l
is_live-fresh_block (delayed _ ∷ t) a l = is_live-fresh_block t a l
is_live-fresh_block (delayed_until _ _ ∷ t) a l = is_live-fresh_block t a l

pub sample_env-IsLawful : IsLawful sample_env
sample_env-IsLawful = record {
  fresh = λ t a h. is_live-fresh_block t a (ground (arith, h));
  others_counted = λ t table c. c;
}
