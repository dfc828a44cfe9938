-- ===== src/Offloader/Routing.antt =====
-- Routing one task from its entry to its execution site: `edge_offloader_run_for_task_index` of
-- offloader.c with the fixed-priority policy.
pub mod Apply
pub mod Batch
pub mod Frame
pub mod Created
pub mod EachTask
pub mod Either
pub mod Fixed
pub mod Monotonic
pub mod Decided
pub mod Rejected
use edge_aware_tasks_rtos.Prelude.{
  ℕ, ◌+◌, ◌*◌, ◌<◌, ◌≡◌, ◌≢◌, refl, sym, ◌∙◌, ap, subst, pos, Bool, true, false, not, ◌||◌, Option,
  none, some, is_some, ltb, if◌then◌else◌, u32_mod,
}
use edge_aware_tasks_rtos.Port.Kernel.{Kernel}
use edge_aware_tasks_rtos.TaskManager.Types.{
  ExecutionSite, local_execution, remote_execution, Hot, Cold, Snapshot,
}
use edge_aware_tasks_rtos.TaskManager.Table.{Table, clip, monitor_index_valid}
use edge_aware_tasks_rtos.TaskManager.Registry.{runtime_from_task_index}
use edge_aware_tasks_rtos.TaskManager.Access.{
  read_entry, zero_snapshot, snapshot_of, is_client_task, get_task_snapshot_by_index,
}
use edge_aware_tasks_rtos.TaskManager.Pair.{pair_id}
use edge_aware_tasks_rtos.TaskManager.System.{System, runtime_by_task_index}
use edge_aware_tasks_rtos.TaskManager.Unchanged.{
  Same, Same-trans, runtime_by_task_index-Same, runtime_by_task_index_lem,
  get_task_snapshot_by_index_lem,
}
use edge_aware_tasks_rtos.Offloader.Types.{
  Route, route_local, route_remote, zero_result, EvalFn, PolicyContext, Candidate, status_ok,
}
use edge_aware_tasks_rtos.Offloader.State.{World, state_ready, policy_context}
use edge_aware_tasks_rtos.Offloader.Policy.{fp_evaluate, fp_evaluate_route, evaluate_with}
use edge_aware_tasks_rtos.Offloader.Policy.Plan.{fp_evaluate_route_threshold}
use edge_aware_tasks_rtos.Offloader.Cycle.{
  is_named, site_of, or_zero, collect_runtime, collect_candidate_at_index,
}
use edge_aware_tasks_rtos.Offloader.Run.{route_candidate, run_for_task_index}
use edge_aware_tasks_rtos.Offloader.Invariant.Applied.{site_at}
use edge_aware_tasks_rtos.Offloader.Routing.Decided.{route_candidate_routes}

pub read_entry_lem {ℓ} :
    {A : Type ℓ} (d : A) (f : Hot → Cold → A) (i : ℕ) (t : Table)
    → monitor_index_valid (pos i) t ≡ true
    → read_entry d f (pos i) t ≡ f (t.hot i) (t.cold i)
unfolding read_entry
read_entry_lem d f i t h = rw h refl

-- What the cycle collects for a client's entry and the runtime that owns it.
abbrev pub candidate_at : ℕ → ℕ → System → Candidate
candidate_at i a s = record {
  task_index = pos i;
  pair_id = pair_id (some a) s;
  snapshot = snapshot_of (s.table.hot i) (s.table.cold i);
  runtime = some a;
}

pub triple {ℓ} :
    {A B C : Type ℓ} (x : A × B × C) {a : A} {b : B} → x.0 ≡ a → x.1 ≡ b → x ≡ (a, b, x.2)
triple x {a} p q = ap (λ y. (y, x.1, x.2)) p ∙ ap (λ y. (a, y, x.2)) q

pair_id-Same :
    (a : ℕ) (s t : System) → s.registry ≡ t.registry → pair_id (some a) s ≡ pair_id (some a) t
unfolding pair_id
pair_id-Same a s t e = ap (λ r. (r.slot a).runtime.pair_id) e

pub threshold-is_named : (b : Bool) → is_named (if b then route_local else route_remote) ≡ true
threshold-is_named true = refl
threshold-is_named false = refl

pub threshold-site_of :
    (b : Bool)
    → site_of (if b then route_local else route_remote)
      ≡ (if b then local_execution else remote_execution)
threshold-site_of true = refl
threshold-site_of false = refl

-- The entry point of the policy gives what its decision for one route gives.
pub fp_evaluate_lem :
    (x : PolicyContext) (c : Candidate) (i : ℕ) (r : Route)
    → (fp_evaluate_route c zero_result).0 ≡ true
    → (fp_evaluate_route c zero_result).1.task_index ≡ pos i
    → (fp_evaluate_route c zero_result).1.route ≡ r
    → ((fp_evaluate x (some c) (some zero_result) (some status_ok)).accepted ≡ true)
      × ((fp_evaluate x (some c) (some zero_result) (some status_ok)).result
          ≡ some (record { task_index = pos i; route = r }))
unfolding fp_evaluate evaluate_with
fp_evaluate_lem x c i r decided own route = (
  decided,
  ap (λ j. some (record { task_index = j; route = (fp_evaluate_route c zero_result).1.route })) own
      ∙ ap (λ y. some (record { task_index = pos i; route = y })) route,
)

-- Where the response time `v` sends a task of this execution time.
abbrev pub chosen_site : (wcet v : ℕ) → ExecutionSite
chosen_site wcet v = if ltb (4 * v + 3) (5 * wcet) then local_execution else remote_execution

module _ (k : Kernel) where
  pub collect_runtime_lem :
      (i a : ℕ) (snap : Snapshot) (s : System)
      → (runtime_by_task_index k (pos i) s).0 ≡ some a
      → ((collect_runtime k (pos i) snap s).0
          ≡ some (record {
            task_index = pos i;
            pair_id = pair_id (some a) s;
            snapshot = snap;
            runtime = some a;
          }))
        × Same (collect_runtime k (pos i) snap s).1 s
  unfolding collect_runtime pair_id
  collect_runtime_lem i a snap s found =
      let same = runtime_by_task_index-Same k (pos i) s in
      rw (found, collect_runtime) (rw same.registry refl, same)

  -- A valid client entry with a runtime is collected.
  pub collect_candidate_at_index_lem :
      (i a : ℕ) (s : System)
      → is_some s.table_mux ≡ true
      → monitor_index_valid (pos i) s.table ≡ true
      → is_client_task (some (clip (s.table.cold i).name)) ≡ true
      → runtime_from_task_index (pos i) s.registry ≡ some a
      → ((collect_candidate_at_index k (pos i) s).0 ≡ some (candidate_at i a s))
        × Same (collect_candidate_at_index k (pos i) s).1 s
  unfolding collect_candidate_at_index pair_id
  collect_candidate_at_index_lem i a s ready valid client found =
      let snap = snapshot_of (s.table.hot i) (s.table.cold i) in
      let (got, out, same) = get_task_snapshot_by_index_lem k (pos i) zero_snapshot s ready in
      let read = read_entry_lem zero_snapshot snapshot_of i s.table valid in
      let g = get_task_snapshot_by_index k (pos i) (some zero_snapshot) s in
      let e : g ≡ (true, some snap, g.2) =
        triple g (got ∙ ap (λ x. x.valid) read) (out ∙ ap some read) in
      let next =
        runtime_by_task_index_lem k (pos i) g.2
        ∙ ap (runtime_from_task_index (pos i)) same.registry
        ∙ found in
      let (which, kept) = collect_runtime_lem i a snap g.2 next in
      let all : collect_candidate_at_index k (pos i) s ≡ collect_runtime k (pos i) snap g.2 =
        ap
          (λ x.
            let seen = or_zero x.1 in
            if not x.0 || not seen.valid
            then (none, x.2)
            else if not (is_client_task (some seen.name))
            then (none, x.2)
            else collect_runtime k (pos i) seen x.2)
          e
        ∙ rw client refl in
      (
        ap (λ x. x.0) all
            ∙ which
            ∙ ap
                (λ r. some (record {
                  task_index = pos i;
                  pair_id = (r.slot a).runtime.pair_id;
                  snapshot = snap;
                  runtime = some a;
                }))
                same.registry,
        subst (λ x. Same x.1 s) (sym all) (Same-trans kept same),
      )

  pub run_for_task_index_collected :
      (i : ℕ) (evaluate : EvalFn) (c : Candidate) (w : World)
      → state_ready w.offloader ≡ true
      → w.offloader.policy.evaluate ≡ some evaluate
      → (collect_candidate_at_index k (pos i) w.system).0 ≡ some c
      → run_for_task_index k (pos i) w
        ≡ route_candidate k evaluate c
            (record w { system = (collect_candidate_at_index k (pos i) w.system).1 })
  unfolding run_for_task_index
  run_for_task_index_collected i evaluate c w ready policy which =
      let found = collect_candidate_at_index k (pos i) w.system in
      let u = record w { system = found.1 } in
      let chosen : EvalFn → Option Candidate → Bool × World =
        λ ev x. elim x [ none ↦ (false, u) | some y ↦ route_candidate k ev y u ] in
      let decide : Option EvalFn → Bool × World =
        λ x. elim x [ none ↦ (false, w) | some ev ↦ chosen ev found.0 ] in
      ap (λ b. if not b then (false, w) else decide w.offloader.policy.evaluate) ready
      ∙ ap decide policy
      ∙ ap (chosen evaluate) which

  -- Let the offloader be ready with the fixed-priority policy, the task table initialised, and an
  -- index name a valid entry of a client with a runtime, whose execution time is not 0 and has
  -- five quarters within 32 bits. Then running the cycle for the index succeeds, and afterwards
  -- the entry has the remote execution site exactly if its response time was at least 1.25 times
  -- the execution time, rounded down, and the local one otherwise.
  pub run_for_task_index_fp :
      (i a : ℕ) (w : World)
      → state_ready w.offloader ≡ true
      → w.offloader.policy.evaluate ≡ some fp_evaluate
      → is_some w.system.table_mux ≡ true
      → monitor_index_valid (pos i) w.system.table ≡ true
      → is_client_task (some (clip (w.system.table.cold i).name)) ≡ true
      → runtime_from_task_index (pos i) w.system.registry ≡ some a
      → (w.system.table.cold i).wcet ≢ 0
      → 5 * (w.system.table.cold i).wcet < 4 * u32_mod
      → ((run_for_task_index k (pos i) w).0 ≡ true)
        × (site_at (pos i) (run_for_task_index k (pos i) w).1.system.table
            ≡ some (
                if ltb (4 * (w.system.table.hot i).oe2el + 3) (5 * (w.system.table.cold i).wcet)
                then local_execution
                else remote_execution))
  run_for_task_index_fp i a w ready policy mux valid client found positive small =
      let (which, same) = collect_candidate_at_index_lem i a w.system mux valid client found in
      let c = candidate_at i a w.system in
      let u = record w { system = (collect_candidate_at_index k (pos i) w.system).1 } in
      let (decided, own, route) = fp_evaluate_route_threshold c zero_result refl positive small in
      let r =
        if ltb (4 * (w.system.table.hot i).oe2el + 3) (5 * (w.system.table.cold i).wcet)
        then route_local
        else route_remote in
      let (accepted, result) =
        fp_evaluate_lem (policy_context w.offloader) c i r decided own route in
      let routed =
        route_candidate_routes k fp_evaluate c i a r u refl ready
          (ap (runtime_from_task_index (pos i)) same.registry ∙ found)
          (pair_id-Same a w.system u.system (sym same.registry))
          (ap (monitor_index_valid (pos i)) same.table ∙ valid) (threshold-is_named (ltb _ _))
          accepted result in
      let run = run_for_task_index_collected i fp_evaluate c w ready policy which in
      (
        ap (λ x. x.0) run ∙ routed.0,
        ap (λ x. site_at (pos i) x.1.system.table) run
            ∙ routed.1
            ∙ ap some (threshold-site_of (ltb _ _)),
      )
