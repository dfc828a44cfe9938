-- ===== src/Witnesses/Routing.antt =====
-- The theorems on policies, batches and results at concrete inputs.
use edge_aware_tasks_rtos.Prelude.{
  ◌≡◌, ◌≤◌, refl, pos, true, false, none, some, arith, ltb, u32, if◌then◌else◌, Array, ◌*◌, ◌+◌,
}
use edge_aware_tasks_rtos.Samples.{sample_kernel, sample_candidate, sample_context}
use edge_aware_tasks_rtos.Port.Board.{
  cpu_cycles_delta, cpu_cycles_to_ms, cycles_to_ms, cpu_cycles_delta_mod,
  cpu_cycles_to_ms-cycles_to_ms,
}
use edge_aware_tasks_rtos.TaskManager.Table.{record_monitor}
use edge_aware_tasks_rtos.TaskManager.Registry.{add_chunk, take_slot}
use edge_aware_tasks_rtos.TaskManager.System.{boot}
use edge_aware_tasks_rtos.Offloader.Types.{
  route_local, route_remote, RouteResult, zero_result, unnamed_route,
}
use edge_aware_tasks_rtos.Offloader.Policy.{fp_evaluate_route, evaluate_with, plan_with}
use edge_aware_tasks_rtos.Offloader.Policy.Plan.{
  plan_with-evaluate_with, fp_evaluate_route_threshold,
}
use edge_aware_tasks_rtos.Offloader.State.{World, zero_offloader}
use edge_aware_tasks_rtos.Offloader.Cycle.{normalize_loop, results_or}
use edge_aware_tasks_rtos.Offloader.Run.{apply_batch_results}
use edge_aware_tasks_rtos.Offloader.Invariant.Applied.{site_at, apply_result_applied}
use edge_aware_tasks_rtos.Offloader.Cycle.{is_named, apply_result}
use edge_aware_tasks_rtos.TaskManager.Types.{remote_execution}
use edge_aware_tasks_rtos.Offloader.State.{offloader_init}
use edge_aware_tasks_rtos.TaskManager.Unchanged.{Same}
use edge_aware_tasks_rtos.Offloader.Invariant.Batch.{apply_batch_results_refused}
use edge_aware_tasks_rtos.Facade.{default_config}
use edge_aware_tasks_rtos.Witnesses.Data.{one_entry, one_taken}

cpu_cycles_delta_mod_example : cpu_cycles_delta (u32 (4294967290 + 10)) 4294967290 ≡ 10
cpu_cycles_delta_mod_example = cpu_cycles_delta_mod 4294967290 10 (omega arith) (omega arith)

cpu_cycles_to_ms-cycles_to_ms_example :
    cpu_cycles_to_ms 240000000 480000
    ≡ (if ltb (u32 240000000) 1000000 then none else some (cycles_to_ms 240000000 480000))
cpu_cycles_to_ms-cycles_to_ms_example = cpu_cycles_to_ms-cycles_to_ms 240000000 480000

fp_evaluate_route_threshold_example :
    ((fp_evaluate_route sample_candidate zero_result).0 ≡ true)
    × ((fp_evaluate_route sample_candidate zero_result).1.task_index ≡ pos 2)
    × ((fp_evaluate_route sample_candidate zero_result).1.route
        ≡ (if ltb (4 * 125 + 3) (5 * 100) then route_local else route_remote))
fp_evaluate_route_threshold_example =
    fp_evaluate_route_threshold sample_candidate zero_result refl (omega arith) (omega arith)

plan_with-evaluate_with_example :
    ((plan_with fp_evaluate_route sample_context
        (some (λ _. sample_candidate))
        2
        (some (λ _. zero_result))
        16
        (some 0)
        none).written
      ≡ some 2)
    × (2 ≤ 16)
    × ((evaluate_with fp_evaluate_route sample_context
          (some sample_candidate)
          (some zero_result)
          none).accepted
        ≡ true)
    × ((evaluate_with fp_evaluate_route sample_context
          (some sample_candidate)
          (some zero_result)
          none).result
        ≡ some (
            results_or
              (λ _. zero_result)
              (plan_with fp_evaluate_route sample_context
                (some (λ _. sample_candidate))
                2
                (some (λ _. zero_result))
                16
                (some 0)
                none).results
              1))
unfolding plan_with fp_evaluate_route
plan_with-evaluate_with_example =
    plan_with-evaluate_with fp_evaluate_route sample_context (λ _. sample_candidate) 2
      (λ _. zero_result) 16 0 none 1 refl (omega arith)

-- A batch whose result names no route.
abbrev bad_results : Array RouteResult
bad_results = λ _. record { task_index = pos 2; route = unnamed_route 7 }

abbrev idle_world : World
idle_world = record { system = boot; offloader = zero_offloader }

apply_batch_results_refused_example :
    ((apply_batch_results sample_kernel (λ _. sample_candidate) bad_results 1 idle_world).0 ≡ false)
    × Same
        (apply_batch_results sample_kernel
          (λ _. sample_candidate)
          bad_results
          1
          idle_world).1.system
        boot
unfolding normalize_loop
apply_batch_results_refused_example =
    apply_batch_results_refused sample_kernel (λ _. sample_candidate) bad_results 1 idle_world refl

-- A pair's client at index 0 with its runtime at 23, under the runtime's default configuration.
abbrev routing_world : World
routing_world = record {
  system = record boot { table = one_entry; registry = one_taken };
  offloader = offloader_init (some default_config.offloader) none;
}

abbrev to_remote : RouteResult
to_remote = record { task_index = pos 0; route = route_remote }

abbrev routed_world : World
routed_world = (apply_result sample_kernel (some to_remote) routing_world).1

apply_result_applied_example :
    (is_named route_remote ≡ true)
    × (site_at (pos 0) routed_world.system.table ≡ some remote_execution)
    × (routed_world.offloader.observed.total_events
        ≡ u32 (routing_world.offloader.observed.total_events + 1))
    × (routed_world.offloader.observed.failure_events
        ≡ routing_world.offloader.observed.failure_events)
    × (routed_world.offloader.observed.last_event.task_index ≡ pos 0)
    × (routed_world.offloader.observed.last_event.route ≡ route_remote)
unfolding apply_result add_chunk take_slot record_monitor offloader_init default_config
apply_result_applied_example = apply_result_applied sample_kernel to_remote routing_world refl
