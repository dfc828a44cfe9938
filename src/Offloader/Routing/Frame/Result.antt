-- ===== src/Offloader/Routing/Frame/Result.antt =====
-- `edge_offloader_apply_result` and one candidate of a cycle: the configuration, the policy and all
-- entries but the result's stay as they are.
use edge_aware_tasks_rtos.Prelude.{
  ℕ, ◌≡◌, refl, pos, Bool, some, is_label, TextPtr, inl, inr, Option-cases, if_cases, not,
}
use edge_aware_tasks_rtos.Port.Kernel.{Kernel}
use edge_aware_tasks_rtos.TaskManager.Pair.{
  pair_set_local_host_label_by_index, pair_set_exec_site_by_index,
}
use edge_aware_tasks_rtos.TaskManager.System.{System, runtime_by_task_index}
use edge_aware_tasks_rtos.TaskManager.Unchanged.{runtime_by_task_index-Same}
use edge_aware_tasks_rtos.Offloader.Types.{Route}
use edge_aware_tasks_rtos.Offloader.State.{
  World, state_ready, resolve_host, fail_event, record_route_event, observability_record,
}
use edge_aware_tasks_rtos.Offloader.Cycle.{is_named, site_of, apply_writes, apply_result}
use edge_aware_tasks_rtos.Offloader.Routing.Frame.{
  IsFramed, IsFramed-trans, Same-IsFramed, IsFramed-refl, set_label-IsFramed, on_table-IsFramed,
}

pub record IsKept (i : ℕ) (w u : World) : Type 0 where
  pub frame : IsFramed i w.system u.system
  pub config : u.offloader.config ≡ w.offloader.config
  pub policy : u.offloader.policy ≡ w.offloader.policy
  pub initialized : u.offloader.initialized ≡ w.offloader.initialized

framed :
    {i : ℕ} {w u : World}
    → IsFramed i w.system u.system
    → u.offloader.config ≡ w.offloader.config
    → u.offloader.policy ≡ w.offloader.policy
    → u.offloader.initialized ≡ w.offloader.initialized
    → IsKept i w u
framed v c p b = record { frame = v; config = c; policy = p; initialized = b }

-- A step of the system comes before.
pub IsKept-after :
    {i : ℕ} {w u : World} {s : System}
    → IsFramed i w.system s
    → IsKept i (record w { system = s }) u
    → IsKept i w u
IsKept-after {i} v x = record {
  frame = IsFramed-trans i v x.frame;
  config = x.config;
  policy = x.policy;
  initialized = x.initialized;
}

module _ (k : Kernel) where
  set_site-IsFramed :
      (i : ℕ) (r : Route) (s : System)
      → IsFramed i s (pair_set_exec_site_by_index (pos i) (site_of r) s).1
  unfolding pair_set_exec_site_by_index
  set_site-IsFramed i r s = on_table-IsFramed (λ c. record c { exec_site = site_of r }) i s

  apply_writes-IsKept :
      (i : ℕ) (r : Route) (host : TextPtr) (w : World)
      → IsKept i w (apply_writes k (record { task_index = pos i; route = r }) host w).1
  unfolding apply_writes fail_event record_route_event observability_record
  apply_writes-IsKept i r host w =
      let label = pair_set_local_host_label_by_index k (pos i) host w.system in
      let first = set_label-IsFramed k i host w.system in
      let place = pair_set_exec_site_by_index (pos i) (site_of r) label.1 in
      let both = IsFramed-trans i first (set_site-IsFramed i r label.1) in
      if_cases (λ (x : Bool × World). IsKept i w x.1) (not label.0)
        (λ unlabelled. framed first refl refl refl)
        (λ labelled.
          if_cases (λ (x : Bool × World). IsKept i w x.1) (not place.0)
            (λ lost. framed both refl refl refl) (λ placed. framed both refl refl refl))

  pub apply_result-IsKept :
      (i : ℕ) (r : Route) (w : World)
      → IsKept i w (apply_result k (some (record { task_index = pos i; route = r })) w).1
  unfolding apply_result fail_event observability_record
  apply_result-IsKept i r w =
      let found = runtime_by_task_index k (pos i) w.system in
      let looked =
        Same-IsFramed i w.system found.1 (runtime_by_task_index-Same k (pos i) w.system) in
      let u : World = record w { system = found.1 } in
      let host = resolve_host r w.offloader in
      if_cases (λ (x : Bool × World). IsKept i w x.1) (not (state_ready w.offloader))
        (λ idle. framed (IsFramed-refl i w.system) refl refl refl)
        (λ ready. elim (Option-cases found.0) [
          | inl missing ↦ rw missing (framed looked refl refl refl)
          | inr (a, there) ↦ rw there (
              if_cases (λ (x : Bool × World). IsKept i w x.1) (not (is_named r))
                (λ unnamed. framed looked refl refl refl)
                (λ named.
                  if_cases (λ (x : Bool × World). IsKept i w x.1) (not (is_label host))
                    (λ nowhere. framed looked refl refl refl)
                    (λ somewhere. IsKept-after looked (apply_writes-IsKept i r host u))))
        ])
