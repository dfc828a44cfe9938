-- ===== src/Offloader/Routing/Monotonic.antt =====
-- A whole cycle of offloader.c with the rate-monotonic policy of offloader_policy_rm.c, in either
-- mode.
use edge_aware_tasks_rtos.Prelude.{
  ℕ, ◌<◌, ◌≡◌, ◌≢◌, refl, sym, ◌∙◌, ap, Bool, true, false, not, some, is_some, length, leb, ◌==◌,
  arith, inl, inr, Bool-cases, Option-cases, if◌then◌else◌,
}
use edge_aware_tasks_rtos.Port.Kernel.{Kernel}
use edge_aware_tasks_rtos.TaskManager.Types.{ExecutionSite, local_execution, remote_execution}
use edge_aware_tasks_rtos.TaskManager.Table.{Table, max_tasks}
use edge_aware_tasks_rtos.TaskManager.Registry.{Registry}
use edge_aware_tasks_rtos.Offloader.Types.{Route, route_local, route_remote, Candidate, RouteResult}
use edge_aware_tasks_rtos.Offloader.State.{World, state_ready}
use edge_aware_tasks_rtos.Offloader.Cycle.{site_of}
use edge_aware_tasks_rtos.Offloader.Policy.{rm_evaluate_route, rm_evaluate, rm_plan}
use edge_aware_tasks_rtos.Offloader.Run.{run_once}
use edge_aware_tasks_rtos.Offloader.Collection.{eligible, eligible_from}
use edge_aware_tasks_rtos.Offloader.Routing.{threshold-is_named}
use edge_aware_tasks_rtos.Offloader.Routing.EachTask.{eligible_lem}
use edge_aware_tasks_rtos.Offloader.Routing.EachTask.Loop.{site_after}
use edge_aware_tasks_rtos.Offloader.Routing.Batch.{result_of}
use edge_aware_tasks_rtos.Offloader.Routing.Batch.Once.{DecidesEach}
use edge_aware_tasks_rtos.Offloader.Routing.Either.{run_once_decides}

abbrev rm_route : Candidate → Route
rm_route c = if not (leb c.snapshot.period c.snapshot.oe2el) then route_local else route_remote

-- Every eligible entry has a period.
abbrev pub IsPeriodic : Table → Registry → Type 0
IsPeriodic t r = (i : ℕ) (c : Candidate) → eligible i t r ≡ some c → c.snapshot.period ≢ 0

abbrev pub site_by_period : (period oe2el : ℕ) → ExecutionSite
site_by_period period oe2el = if leb period oe2el then remote_execution else local_execution

rm_decided :
    (c : Candidate) (x : RouteResult)
    → c.snapshot.valid ≡ true
    → c.snapshot.period ≢ 0
    → ((rm_evaluate_route c x).0 ≡ true) × ((rm_evaluate_route c x).1 ≡ result_of rm_route c)
unfolding rm_evaluate_route
rm_decided c x valid positive =
    let timed : (c.snapshot.period == 0) ≡ false = ground (arith, positive) in
    elim (Bool-cases (leb c.snapshot.period c.snapshot.oe2el)) [
      | inl late ↦ rw (valid, late, timed) (refl, refl)
      | inr soon ↦ rw (valid, soon, timed) (refl, refl)
    ]

rm_evaluate_route-DecidesEach :
    (t : Table) (r : Registry) → IsPeriodic t r → DecidesEach rm_evaluate_route rm_route t r
rm_evaluate_route-DecidesEach t r periodic = record {
  named = λ j c e. threshold-is_named (not (leb c.snapshot.period c.snapshot.oe2el));
  decided = λ j c x e.
      let (a, valid, found, whole) = eligible_lem j t r c e in
      (rm_decided c x (ap (λ d. d.snapshot.valid) (sym whole)) (periodic j c e)).0;
  result = λ j c x e.
      let (a, valid, found, whole) = eligible_lem j t r c e in
      (rm_decided c x (ap (λ d. d.snapshot.valid) (sym whole)) (periodic j c e)).1;
}

site_of_period :
    (b : Bool)
    → site_of (if not b then route_local else route_remote)
      ≡ (if b then remote_execution else local_execution)
site_of_period true = refl
site_of_period false = refl

-- The site by the entry's own numbers.
rm_site :
    (j : ℕ) (t : Table) (r : Registry) (old : ExecutionSite)
    → site_after rm_route (eligible j t r) old
      ≡ (if is_some (eligible j t r) then site_by_period (t.cold j).period (t.hot j).oe2el else old)
rm_site j t r old = elim (Option-cases (eligible j t r)) [
  | inl e ↦ rw e refl
  | inr (c, e) ↦
      let (a, valid, found, whole) = eligible_lem j t r c e in
      rw e (
        site_of_period (leb c.snapshot.period c.snapshot.oe2el)
        ∙ ap (λ (d : Candidate). site_by_period d.snapshot.period d.snapshot.oe2el) (sym whole))
]

-- Let the offloader be ready with the rate-monotonic policy, let the table be initialised, and let
-- every eligible entry have a period that is not 0. Then one control cycle, per task or as a
-- batch, succeeds exactly if an entry is eligible; afterwards each eligible entry shows the remote
-- site if its response time was at least its period, and else the local one, every other entry
-- shows the site it had, and no measurement changed.
pub run_once_routes_rm :
    (k : Kernel) (w : World) (j : ℕ)
    → state_ready w.offloader ≡ true
    → w.offloader.policy.evaluate ≡ some rm_evaluate
    → w.offloader.policy.plan ≡ some rm_plan
    → is_some w.system.table_mux ≡ true
    → IsPeriodic w.system.table w.system.registry
    → j < max_tasks
    → ((run_once k w).0
        ≡ not (length (eligible_from max_tasks 0 w.system.table w.system.registry) == 0))
      × (((run_once k w).1.system.table.cold j).exec_site ≡ (
          if is_some (eligible j w.system.table w.system.registry)
          then site_by_period (w.system.table.cold j).period (w.system.table.hot j).oe2el
          else (w.system.table.cold j).exec_site))
      × ((run_once k w).1.system.table.hot ≡ w.system.table.hot)
unfolding rm_evaluate rm_plan
run_once_routes_rm k w j ready policy plan mux periodic within =
    let decides = rm_evaluate_route-DecidesEach w.system.table w.system.registry periodic in
    let (success, site, hot) =
      run_once_decides k rm_evaluate_route rm_route w j ready policy plan mux decides within in
    (
      success,
      site ∙ rm_site j w.system.table w.system.registry (w.system.table.cold j).exec_site,
      hot,
    )
