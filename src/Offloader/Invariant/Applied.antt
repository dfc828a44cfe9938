-- ===== src/Offloader/Invariant/Applied.antt =====
-- What a result that `edge_offloader_apply_result` reports as applied has left behind.
use edge_aware_tasks_rtos.Prelude.{
  ◌+◌, ◌≡◌, refl, ◌∙◌, ap, ℤ, pos, negsuc, true, Option, none, some, u32, arith, inl, inr,
  Bool-cases, Option-cases, is_label, TextPtr,
}
use edge_aware_tasks_rtos.Port.Kernel.{Kernel}
use edge_aware_tasks_rtos.TaskManager.Types.{ExecutionSite}
use edge_aware_tasks_rtos.TaskManager.Table.{Table, monitor_index_valid}
use edge_aware_tasks_rtos.TaskManager.Access.{read_entry, change_cold}
use edge_aware_tasks_rtos.TaskManager.System.{on_table, runtime_by_task_index}
use edge_aware_tasks_rtos.TaskManager.Pair.{
  pair_set_local_host_label_by_index, pair_set_exec_site_by_index,
}
use edge_aware_tasks_rtos.Offloader.Types.{
  Route, route_local, route_remote, unnamed_route, RouteResult,
}
use edge_aware_tasks_rtos.Offloader.State.{
  World, Offloader, state_ready, resolve_host, record_route_event, observability_record,
  count_event, fail_event,
}
use edge_aware_tasks_rtos.Offloader.Cycle.{is_named, site_of, apply_writes, apply_result}

-- The execution site that the table holds for an index, if the index is valid.
unfoldable pub site_at : ℤ → Table → Option ExecutionSite
site_at = read_entry none (λ h c. some c.exec_site)

set_site_at :
    (i : ℤ) (x : ExecutionSite) (t : Table)
    → monitor_index_valid i t ≡ true
    → site_at i (change_cold (λ c. record c { exec_site = x }) i t) ≡ some x
unfolding site_at read_entry change_cold monitor_index_valid
set_site_at (pos i) x t h = ground (arith, h)
set_site_at (negsuc n) x t h = ground (arith, h)

module _ (k : Kernel) where
  apply_writes_applied :
      (r : RouteResult) (host : TextPtr) (w : World)
      → (apply_writes k r host w).0 ≡ true
      → (site_at r.task_index (apply_writes k r host w).1.system.table ≡ some (site_of r.route))
        × ((apply_writes k r host w).1.offloader
            ≡ record_route_event r.task_index r.route w.offloader)
  unfolding apply_writes pair_set_exec_site_by_index on_table
  apply_writes_applied r host w =
      let label = pair_set_local_host_label_by_index k r.task_index host w.system in
      elim (Bool-cases label.0) [
        | inr e ↦ rw (e, apply_writes) (λ h. ground (arith, h))
        | inl e ↦ elim (Bool-cases (monitor_index_valid r.task_index label.1.table)) [
          | inr f ↦ rw (e, apply_writes) (rw f (λ h. ground (arith, h)))
          | inl f ↦
              rw (e, apply_writes)
                (rw f (λ h. (set_site_at r.task_index (site_of r.route) label.1.table f, refl)))
        ]
      ]

  recorded :
      (i : ℤ) (r : Route) (o : Offloader)
      → is_named r ≡ true
      → ((record_route_event i r o).observed.total_events ≡ u32 (o.observed.total_events + 1))
        × ((record_route_event i r o).observed.failure_events ≡ o.observed.failure_events)
        × ((record_route_event i r o).observed.last_event.task_index ≡ i)
        × ((record_route_event i r o).observed.last_event.route ≡ r)
  unfolding record_route_event observability_record count_event
  recorded i route_local o h = (refl, refl, refl, refl)
  recorded i route_remote o h = (refl, refl, refl, refl)
  recorded i (unnamed_route n) o h = ground (arith, h)

  pub applied :
      (r : RouteResult) (w : World)
      → (apply_result k (some r) w).0 ≡ true
      → (is_named r.route ≡ true)
        × (site_at r.task_index (apply_result k (some r) w).1.system.table ≡ some (site_of r.route))
        × ((apply_result k (some r) w).1.offloader
            ≡ record_route_event r.task_index r.route w.offloader)
  unfolding apply_result fail_event
  applied r w =
      let found = runtime_by_task_index k r.task_index w.system in
      let u = record w { system = found.1 } in
      elim (Bool-cases (state_ready w.offloader)) [
        | inr e ↦ rw (e, apply_result) (λ h. ground (arith, h))
        | inl e ↦ elim (Option-cases found.0) [
          | inl f ↦ rw (e, apply_result) (rw f (λ h. ground (arith, h)))
          | inr (a, f) ↦ elim (Bool-cases (is_named r.route)) [
            | inr g ↦ rw (e, apply_result) (rw (f, g) (λ h. ground (arith, h)))
            | inl g ↦ elim (Bool-cases (is_label (resolve_host r.route w.offloader))) [
              | inr l ↦ rw (e, apply_result) (rw (f, g, l) (λ h. ground (arith, h)))
              | inl l ↦
                  rw (e, apply_result)
                    (rw (f, g, l)
                      (λ h.
                        let p = apply_writes_applied r (resolve_host r.route w.offloader) u h in
                        (refl, p.0, p.1)))
            ]
          ]
        ]
      ]

  -- A result that is reported as applied names one of the two routes; the task's entry is valid
  -- and shows that route's execution site; one event more is counted, modulo 2 ^ 32, no failure,
  -- and the last event is for the task and the route.
  pub apply_result_applied :
      (r : RouteResult) (w : World)
      → (apply_result k (some r) w).0 ≡ true
      → (is_named r.route ≡ true)
        × (site_at r.task_index (apply_result k (some r) w).1.system.table ≡ some (site_of r.route))
        × ((apply_result k (some r) w).1.offloader.observed.total_events
            ≡ u32 (w.offloader.observed.total_events + 1))
        × ((apply_result k (some r) w).1.offloader.observed.failure_events
            ≡ w.offloader.observed.failure_events)
        × ((apply_result k (some r) w).1.offloader.observed.last_event.task_index ≡ r.task_index)
        × ((apply_result k (some r) w).1.offloader.observed.last_event.route ≡ r.route)
  apply_result_applied r w h =
      let (named, site, same) = applied r w h in
      let now = recorded r.task_index r.route w.offloader named in
      (
        named,
        site,
        ap (λ o. o.observed.total_events) same ∙ now.0,
        ap (λ o. o.observed.failure_events) same ∙ now.1,
        ap (λ o. o.observed.last_event.task_index) same ∙ now.2,
        ap (λ o. o.observed.last_event.route) same ∙ now.3,
      )
