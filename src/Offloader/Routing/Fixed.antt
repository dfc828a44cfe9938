-- ===== src/Offloader/Routing/Fixed.antt =====
-- A whole cycle of offloader.c with the fixed-priority policy of offloader_policy_simple.c, in either
-- mode.
use edge_aware_tasks_rtos.Prelude.{
  ℕ, ◌+◌, ◌*◌, ◌≢◌, u32_mod, Option-cases, ◌<◌, ◌≡◌, refl, sym, ◌∙◌, ap, true, not, some, is_some,
  length, ltb, ◌==◌, inl, inr, if◌then◌else◌,
}
use edge_aware_tasks_rtos.Port.Kernel.{Kernel}
use edge_aware_tasks_rtos.TaskManager.Table.{Table, max_tasks}
use edge_aware_tasks_rtos.TaskManager.Registry.{Registry}
use edge_aware_tasks_rtos.TaskManager.Types.{ExecutionSite}
use edge_aware_tasks_rtos.Offloader.Types.{Route, route_local, route_remote, Candidate, RouteResult}
use edge_aware_tasks_rtos.Offloader.State.{World, state_ready}
use edge_aware_tasks_rtos.Offloader.Policy.{fp_evaluate_route, fp_evaluate, fp_plan}
use edge_aware_tasks_rtos.Offloader.Policy.Plan.{fp_evaluate_route_threshold}
use edge_aware_tasks_rtos.Offloader.Run.{run_once}
use edge_aware_tasks_rtos.Offloader.Collection.{eligible, eligible_from}
use edge_aware_tasks_rtos.Offloader.Routing.{chosen_site, threshold-is_named, threshold-site_of}
use edge_aware_tasks_rtos.Offloader.Routing.EachTask.{eligible_lem}
use edge_aware_tasks_rtos.Offloader.Routing.EachTask.Loop.{site_after}
use edge_aware_tasks_rtos.Offloader.Routing.Batch.{result_of}
use edge_aware_tasks_rtos.Offloader.Routing.Batch.Once.{DecidesEach}
use edge_aware_tasks_rtos.Offloader.Routing.Either.{run_once_decides}

-- The route that the fixed-priority policy decides for.
abbrev fp_route : Candidate → Route
fp_route c =
    if ltb (4 * c.snapshot.oe2el + 3) (5 * c.snapshot.wcet) then route_local else route_remote

-- Every eligible entry has an execution time, five quarters of which fit 32 bits.
abbrev pub IsTimed : Table → Registry → Type 0
IsTimed t r =
    (i : ℕ) (c : Candidate)
    → eligible i t r ≡ some c
    → (c.snapshot.wcet ≢ 0) × (5 * c.snapshot.wcet < 4 * u32_mod)

fp_decides :
    (t : Table) (r : Registry) (j : ℕ) (c : Candidate) (x : RouteResult)
    → IsTimed t r
    → eligible j t r ≡ some c
    → ((fp_evaluate_route c x).0 ≡ true) × ((fp_evaluate_route c x).1 ≡ result_of fp_route c)
fp_decides t r j c x timed e =
    let (a, valid, found, whole) = eligible_lem j t r c e in
    let (positive, small) = timed j c e in
    let (decided, own, route) =
      fp_evaluate_route_threshold c x (ap (λ d. d.snapshot.valid) (sym whole)) positive small in
    (
      decided,
      ap (λ i. record { task_index = i; route = (fp_evaluate_route c x).1.route }) own
          ∙ ap (λ y. record { task_index = c.task_index; route = y }) route,
    )

fp_evaluate_route-DecidesEach :
    (t : Table) (r : Registry) → IsTimed t r → DecidesEach fp_evaluate_route fp_route t r
fp_evaluate_route-DecidesEach t r timed = record {
  named = λ j c e. threshold-is_named (ltb _ _);
  decided = λ j c x e. (fp_decides t r j c x timed e).0;
  result = λ j c x e. (fp_decides t r j c x timed e).1;
}

-- The site by the entry's own numbers.
fp_site :
    (j : ℕ) (t : Table) (r : Registry) (old : ExecutionSite)
    → site_after fp_route (eligible j t r) old
      ≡ (if is_some (eligible j t r) then chosen_site (t.cold j).wcet (t.hot j).oe2el else old)
fp_site j t r old = elim (Option-cases (eligible j t r)) [
  | inl e ↦ rw e refl
  | inr (c, e) ↦
      let (a, valid, found, whole) = eligible_lem j t r c e in
      rw e (
        threshold-site_of (ltb _ _)
        ∙ ap (λ (d : Candidate). chosen_site d.snapshot.wcet d.snapshot.oe2el) (sym whole))
]

-- Let the offloader be ready with the fixed-priority policy, let the table be initialised, and let
-- every eligible entry, a valid one with a client's name and a runtime that answers its index,
-- have an execution time that is not 0 and of which five quarters fit 32 bits. Then one control
-- cycle, per task or as a batch, succeeds exactly if an entry is eligible; afterwards each
-- eligible entry shows the remote site if its response time was at least 1.25 times its execution
-- time, rounded down, and else the local one, every other entry shows the site it had, and no
-- measurement changed.
pub run_once_routes :
    (k : Kernel) (w : World) (j : ℕ)
    → state_ready w.offloader ≡ true
    → w.offloader.policy.evaluate ≡ some fp_evaluate
    → w.offloader.policy.plan ≡ some fp_plan
    → is_some w.system.table_mux ≡ true
    → IsTimed w.system.table w.system.registry
    → j < max_tasks
    → ((run_once k w).0
        ≡ not (length (eligible_from max_tasks 0 w.system.table w.system.registry) == 0))
      × (((run_once k w).1.system.table.cold j).exec_site ≡ (
          if is_some (eligible j w.system.table w.system.registry)
          then chosen_site (w.system.table.cold j).wcet (w.system.table.hot j).oe2el
          else (w.system.table.cold j).exec_site))
      × ((run_once k w).1.system.table.hot ≡ w.system.table.hot)
unfolding fp_evaluate fp_plan
run_once_routes k w j ready policy plan mux timed within =
    let decides = fp_evaluate_route-DecidesEach w.system.table w.system.registry timed in
    let (success, site, hot) =
      run_once_decides k fp_evaluate_route fp_route w j ready policy plan mux decides within in
    (
      success,
      site ∙ fp_site j w.system.table w.system.registry (w.system.table.cold j).exec_site,
      hot,
    )
