-- ===== src/Offloader/Cycle.antt =====
-- Routing cycles of offloader.c: candidates, results, and the two control modes. A function returns
-- its result with the world after it.
use edge_aware_tasks_rtos.Prelude.{
  ℕ, zero, suc, ◌+◌, ℤ, pos, Bool, true, false, not, ◌||◌, Option, none, some, Array, update,
  TextPtr, is_label, is_negative, int_eq, ltb, ◌==◌, if◌then◌else◌,
}
use edge_aware_tasks_rtos.Port.Kernel.{Kernel}
use edge_aware_tasks_rtos.TaskManager.Types.{
  Snapshot, ExecutionSite, local_execution, remote_execution,
}
use edge_aware_tasks_rtos.TaskManager.Table.{max_tasks}
use edge_aware_tasks_rtos.TaskManager.System.{System, runtime_by_task_index}
use edge_aware_tasks_rtos.TaskManager.Access.{
  zero_snapshot, is_client_task, get_task_snapshot_by_index,
}
use edge_aware_tasks_rtos.TaskManager.Pair.{
  pair_id, pair_set_local_host_label_by_index, pair_set_exec_site_by_index,
}
use edge_aware_tasks_rtos.Offloader.Types.{
  Route, route_local, route_remote, unnamed_route, event_mutation_failed, PolicyStatus,
  status_invalid_input, Candidate, RouteResult,
}
use edge_aware_tasks_rtos.Offloader.State.{
  World, state_ready, resolve_host, record_route_event, fail_event,
}

abbrev pub is_named : Route → Bool
is_named route_local = true
is_named route_remote = true
is_named (unnamed_route _) = false

abbrev pub site_of : Route → ExecutionSite
site_of route_remote = remote_execution
site_of _ = local_execution

abbrev pub or_zero : Option Snapshot → Snapshot
or_zero none = zero_snapshot
or_zero (some s) = s

abbrev pub result_or : RouteResult → Option RouteResult → RouteResult
result_or d none = d
result_or d (some r) = r

abbrev pub status_or : PolicyStatus → Option PolicyStatus → PolicyStatus
status_or d none = d
status_or d (some s) = s

abbrev pub results_or : Array RouteResult → Option (Array RouteResult) → Array RouteResult
results_or d none = d
results_or d (some r) = r

abbrev pub count_or : ℕ → Option ℕ → ℕ
count_or d none = d
count_or d (some n) = n

-- `out[collected] = candidate` where there is a buffer with room.
abbrev pub store_candidate :
    Candidate → ℕ → (capacity : ℕ) → Option (Array Candidate) → Option (Array Candidate)
store_candidate c n capacity none = none
store_candidate c n capacity (some out) = some (if ltb n capacity then update out n c else out)

module _ (k : Kernel) where
  -- After the snapshot was found valid and its name a client's.
  unfoldable pub collect_runtime : ℤ → Snapshot → System → Option Candidate × System
  unfolding runtime_by_task_index
  collect_runtime i snap s =
      let (runtime, u) = runtime_by_task_index k i s in
      elim runtime [
        | none ↦ (none, u)
        | some a ↦ (
          some (record {
            task_index = i;
            pair_id = pair_id (some a) u;
            snapshot = snap;
            runtime = some a;
          }),
          u,
        )
      ]

  -- `offloader_collect_candidate_at_index`; none is the result `false`.
  unfoldable pub collect_candidate_at_index : ℤ → System → Option Candidate × System
  unfolding get_task_snapshot_by_index is_client_task collect_runtime
  collect_candidate_at_index i s =
      let (found, out, u) = get_task_snapshot_by_index k i (some zero_snapshot) s in
      let snap = or_zero out in
      if not found || not snap.valid
      then (none, u)
      else if not (is_client_task (some snap.name))
      then (none, u)
      else collect_runtime i snap u

  -- The loop of `edge_offloader_collect_candidates` from index `i` with `n` collected so far.
  unfoldable pub collect_loop :
      (capacity rounds i n : ℕ)
      → Option (Array Candidate)
      → System
      → ℕ × Option (Array Candidate) × System
  unfolding collect_candidate_at_index
  collect_loop capacity zero i n out s = (n, out, s)
  collect_loop capacity (suc r) i n out s =
      let (found, u) = collect_candidate_at_index (pos i) s in
      let skipped = collect_loop capacity r (i + 1) n out u in
      elim found [
        | none ↦ skipped
        | some c ↦ collect_loop capacity r (i + 1) (n + 1) (store_candidate c n capacity out) u
      ]

  unfoldable pub collect_candidates :
      Option (Array Candidate) → (capacity : ℕ) → System → ℕ × Option (Array Candidate) × System
  unfolding collect_loop
  collect_candidates out capacity s = collect_loop capacity max_tasks 0 0 out s

  -- The runtime that owns the candidate's index still has the candidate's pair id.
  unfoldable pub same_pair : Candidate → System → Bool × System
  unfolding runtime_by_task_index
  same_pair c s =
      let (runtime, u) = runtime_by_task_index k c.task_index s in
      elim runtime [ none ↦ (false, u) | some a ↦ (pair_id (some a) u == c.pair_id, u) ]

  -- `offloader_result_is_valid`
  unfoldable pub result_is_valid : Candidate → RouteResult → System → Bool × System
  unfolding same_pair
  result_is_valid c r s =
      if is_negative r.task_index || not (int_eq r.task_index c.task_index)
      then (false, s)
      else if not (is_named r.route)
      then (false, s)
      else same_pair c s

  -- A negative index stands for the candidate's own.
  unfoldable pub normalized : Candidate → RouteResult → RouteResult
  normalized c r = if is_negative r.task_index then record r { task_index = c.task_index } else r

  -- The loop of `offloader_normalize_batch_results`.
  unfoldable pub normalize_loop :
      Array Candidate
      → Array RouteResult
      → (rounds i : ℕ) → Array RouteResult
      → System
      → Bool × Array RouteResult × System
  unfolding normalized same_pair
  normalize_loop cs rs zero i out s = (true, out, s)
  normalize_loop cs rs (suc n) i out s =
      let r = normalized (cs i) (rs i) in
      if not (int_eq r.task_index (cs i).task_index)
      then (false, out, s)
      else if not (is_named r.route)
      then (false, out, s)
      else let (same, u) = same_pair (cs i) s in
        let rest = normalize_loop cs rs n (i + 1) (update out i r) u in
        if same then rest else (false, out, u)

  -- The two writes of `edge_offloader_apply_result` after the host was resolved.
  unfoldable pub apply_writes : RouteResult → TextPtr → World → Bool × World
  unfolding fail_event pair_set_local_host_label_by_index pair_set_exec_site_by_index
      record_route_event
  apply_writes r host w =
      let (labelled, s1) = pair_set_local_host_label_by_index k r.task_index host w.system in
      let w1 = record w { system = s1 } in
      let failure = λ (v : World).
        fail_event event_mutation_failed r.task_index r.route status_invalid_input v in
      if not labelled
      then (false, failure w1)
      else let (placed, s2) = pair_set_exec_site_by_index r.task_index (site_of r.route) s1 in
        let w2 = record w { system = s2 } in
        if not placed
        then (false, failure w2)
        else (true, record w2 { offloader = record_route_event r.task_index r.route w2.offloader })

  unfoldable pub apply_result : Option RouteResult → World → Bool × World
  unfolding state_ready runtime_by_task_index resolve_host apply_writes fail_event
  apply_result none w = (false, w)
  apply_result (some r) w =
      if not (state_ready w.offloader)
      then (false, w)
      else let (runtime, s) = runtime_by_task_index k r.task_index w.system in
        let u = record w { system = s } in
        elim runtime [
          | none ↦ (false, u)
          | some _ ↦
              if not (is_named r.route)
              then (false, u)
              else let host = resolve_host r.route w.offloader in
                if not (is_label host)
                then (
                  false,
                  fail_event event_mutation_failed r.task_index r.route status_invalid_input u,
                )
                else apply_writes r host u
        ]
