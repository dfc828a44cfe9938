-- ===== src/Offloader/Invariant/Cycle.antt =====
-- The offloader's invariant for candidates, validation and the application of one result.
use edge_aware_tasks_rtos.Prelude.{
  ℕ, zero, suc, ◌+◌, ℤ, pos, not, ◌||◌, Option, none, some, Array, update, inl, inr, Bool-cases,
  Option-cases, is_label, is_negative, int_eq, TextPtr,
}
use edge_aware_tasks_rtos.Port.Kernel.{Kernel}
use edge_aware_tasks_rtos.TaskManager.System.{System, runtime_by_task_index}
use edge_aware_tasks_rtos.TaskManager.Access.{
  zero_snapshot, is_client_task, get_task_snapshot_by_index,
}
use edge_aware_tasks_rtos.TaskManager.Table.{max_tasks}
use edge_aware_tasks_rtos.TaskManager.Pair.{
  pair_set_local_host_label_by_index, pair_set_exec_site_by_index,
}
use edge_aware_tasks_rtos.TaskManager.Types.{Snapshot}
use edge_aware_tasks_rtos.TaskManager.Invariant.{Inv}
use edge_aware_tasks_rtos.TaskManager.Invariant.Reserve.{runtime_by_task_index-Inv}
use edge_aware_tasks_rtos.TaskManager.Invariant.Calls.{
  get_task_snapshot_by_index-Inv, pair_set_exec_site_by_index-Inv,
  pair_set_local_host_label_by_index-Inv,
}
use edge_aware_tasks_rtos.Offloader.Types.{
  event_mutation_failed, status_invalid_input, Candidate, RouteResult,
}
use edge_aware_tasks_rtos.Offloader.State.{Offloader, World, state_ready, resolve_host}
use edge_aware_tasks_rtos.Offloader.Cycle.{
  is_named, site_of, or_zero, store_candidate, collect_runtime, collect_candidate_at_index,
  collect_loop, collect_candidates, same_pair, result_is_valid, normalized, normalize_loop,
  apply_writes, apply_result,
}
use edge_aware_tasks_rtos.Offloader.Invariant.{
  IsRouted, system-IsRouted, fail_event-IsRouted, route_recorded-IsRouted,
}

module _ (k : Kernel) where
  collect_runtime-Inv :
      (i : ℤ) (snap : Snapshot) {s : System} → Inv s → Inv (collect_runtime k i snap s).1
  unfolding collect_runtime
  collect_runtime-Inv i snap {s} v = elim (Option-cases (runtime_by_task_index k i s).0) [
    | inl e ↦ rw (e, collect_runtime) (runtime_by_task_index-Inv k i v)
    | inr (a, e) ↦ rw (e, collect_runtime) (runtime_by_task_index-Inv k i v)
  ]

  pub collect_candidate_at_index-Inv :
      (i : ℤ) {s : System} → Inv s → Inv (collect_candidate_at_index k i s).1
  unfolding collect_candidate_at_index
  collect_candidate_at_index-Inv i {s} v =
      let got = get_task_snapshot_by_index k i (some zero_snapshot) s in
      let w = get_task_snapshot_by_index-Inv k i (some zero_snapshot) v in
      let snap = or_zero got.1 in
      elim (Bool-cases (not got.0 || not snap.valid)) [
        | inl bad ↦ rw (bad, collect_candidate_at_index) w
        | inr good ↦ elim (Bool-cases (is_client_task (some snap.name))) [
          | inl client ↦
              rw (good, collect_candidate_at_index) (rw client (collect_runtime-Inv i snap w))
          | inr server ↦ rw (good, collect_candidate_at_index) (rw server w)
        ]
      ]

  pub collect_loop-Inv :
      (capacity r i n : ℕ) (out : Option (Array Candidate)) {s : System}
      → Inv s
      → Inv (collect_loop k capacity r i n out s).2
  unfolding collect_loop
  collect_loop-Inv capacity zero i n out v = v
  collect_loop-Inv capacity (suc r) i n out {s} v =
      let w = collect_candidate_at_index-Inv (pos i) v in
      elim (Option-cases (collect_candidate_at_index k (pos i) s).0) [
        | inl e ↦ rw (e, collect_loop) (collect_loop-Inv capacity r (i + 1) n out w)
        | inr (c, e) ↦
            rw (e, collect_loop)
              (collect_loop-Inv capacity r (i + 1) (n + 1) (store_candidate c n capacity out) w)
      ]

  pub collect_candidates-Inv :
      (out : Option (Array Candidate)) (capacity : ℕ) {s : System}
      → Inv s
      → Inv (collect_candidates k out capacity s).2
  unfolding collect_candidates
  collect_candidates-Inv out capacity v = collect_loop-Inv capacity max_tasks 0 0 out v

  same_pair-Inv : (c : Candidate) {s : System} → Inv s → Inv (same_pair k c s).1
  unfolding same_pair
  same_pair-Inv c {s} v = elim (Option-cases (runtime_by_task_index k c.task_index s).0) [
    | inl e ↦ rw (e, same_pair) (runtime_by_task_index-Inv k c.task_index v)
    | inr (a, e) ↦ rw (e, same_pair) (runtime_by_task_index-Inv k c.task_index v)
  ]

  pub result_is_valid-Inv :
      (c : Candidate) (r : RouteResult) {s : System} → Inv s → Inv (result_is_valid k c r s).1
  unfolding result_is_valid
  result_is_valid-Inv c r {s} v =
      elim (Bool-cases (is_negative r.task_index || not (int_eq r.task_index c.task_index))) [
        | inl bad ↦ rw (bad, result_is_valid) v
        | inr good ↦ elim (Bool-cases (is_named r.route)) [
          | inl named ↦ rw (good, result_is_valid) (rw named (same_pair-Inv c v))
          | inr other ↦ rw (good, result_is_valid) (rw other v)
        ]
      ]

  pub normalize_loop-Inv :
      (cs : Array Candidate) (rs : Array RouteResult) (n i : ℕ) (out : Array RouteResult)
      {s : System}
      → Inv s
      → Inv (normalize_loop k cs rs n i out s).2
  unfolding normalize_loop
  normalize_loop-Inv cs rs zero i out v = v
  normalize_loop-Inv cs rs (suc n) i out {s} v =
      let r = normalized k (cs i) (rs i) in
      let w = same_pair-Inv (cs i) v in
      elim (Bool-cases (int_eq r.task_index (cs i).task_index)) [
        | inr other ↦ rw (other, normalize_loop) v
        | inl own ↦ elim (Bool-cases (is_named r.route)) [
          | inr unnamed ↦ rw (own, normalize_loop) (rw unnamed v)
          | inl named ↦ elim (Bool-cases (same_pair k (cs i) s).0) [
            | inr moved ↦ rw (own, normalize_loop) (rw named (rw moved w))
            | inl same ↦
                rw (own, normalize_loop)
                  (rw named (rw same (normalize_loop-Inv cs rs n (i + 1) (update out i r) w)))
          ]
        ]
      ]

  module _ {o : Offloader} where
    apply_writes-IsRouted :
        (r : RouteResult) (host : TextPtr) {w : World}
        → IsRouted o w
        → IsRouted o (apply_writes k r host w).1
    unfolding apply_writes
    apply_writes-IsRouted r host {w} v =
        let label = pair_set_local_host_label_by_index k r.task_index host w.system in
        let place = pair_set_exec_site_by_index r.task_index (site_of r.route) label.1 in
        let v1 =
          system-IsRouted v
            (pair_set_local_host_label_by_index-Inv k r.task_index host v.between_calls) in
        let v2 =
          system-IsRouted v1
            (pair_set_exec_site_by_index-Inv r.task_index (site_of r.route) v1.between_calls) in
        elim (Bool-cases label.0) [
          | inr e ↦
              rw (e, apply_writes)
                (fail_event-IsRouted event_mutation_failed r.task_index r.route status_invalid_input
                  v1)
          | inl e ↦ elim (Bool-cases place.0) [
            | inr f ↦
                rw (e, apply_writes)
                  (rw f (
                    fail_event-IsRouted event_mutation_failed r.task_index r.route
                      status_invalid_input v2))
            | inl f ↦ rw (e, apply_writes) (rw f (route_recorded-IsRouted r.task_index r.route v2))
          ]
        ]

    -- A result is applied, or refused, and the world stays a routed one.
    pub apply_result-IsRouted :
        (r : Option RouteResult) {w : World} → IsRouted o w → IsRouted o (apply_result k r w).1
    unfolding apply_result
    apply_result-IsRouted none v = v
    apply_result-IsRouted (some r) {w} v =
        let found = runtime_by_task_index k r.task_index w.system in
        let u = system-IsRouted v (runtime_by_task_index-Inv k r.task_index v.between_calls) in
        elim (Bool-cases (state_ready w.offloader)) [
          | inr e ↦ rw (e, apply_result) v
          | inl e ↦ elim (Option-cases found.0) [
            | inl f ↦ rw (e, apply_result) (rw f u)
            | inr (a, f) ↦ elim (Bool-cases (is_named r.route)) [
              | inr g ↦ rw (e, apply_result) (rw (f, g) u)
              | inl g ↦ elim (Bool-cases (is_label (resolve_host r.route w.offloader))) [
                | inr h ↦
                    rw (e, apply_result)
                      (rw (f, g, h)
                        (fail_event-IsRouted event_mutation_failed r.task_index r.route
                          status_invalid_input u))
                | inl h ↦
                    rw (e, apply_result)
                      (rw (f, g, h) (apply_writes-IsRouted r (resolve_host r.route w.offloader) u))
              ]
            ]
          ]
        ]
