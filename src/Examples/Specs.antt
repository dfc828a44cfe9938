-- ===== src/Examples/Specs.antt =====
-- The task specifications of the example applications. `client` and `server` are their task
-- functions, `old` is the uninitialised specification on the stack.
use edge_aware_tasks_rtos.Prelude.{ℕ, Option, some, codes}
use edge_aware_tasks_rtos.TaskManager.Types.{PairSpec, TaskSpec, enriched, local_execution}
use edge_aware_tasks_rtos.TaskManager.Spec.{
  sizeof_int, spec_init, spec_init_enriched, spec_set_priority, spec_set_local_host_label,
  spec_set_wcet, change,
}

-- `kHappyPairSpec` and its like
abbrev pub int_pair_spec : PairSpec
int_pair_spec = record { queue_depth = 1; message_size = sizeof_int }

module _ (client server : ℕ) (old : TaskSpec) where
  unfoldable pub happy_task_spec : Option TaskSpec
  unfolding spec_init_enriched spec_set_priority spec_set_local_host_label spec_set_wcet
  happy_task_spec = spec_set_wcet 0 0 (
      spec_set_local_host_label (some (codes "LOCAL_RUNTIME")) (
        spec_set_priority 2 (
          spec_init_enriched (some (codes "HappyTask")) (some client) (some server) 2048 2048 1000
            (some int_pair_spec) (some old))))

  unfoldable pub hello_task_spec : Option TaskSpec
  unfolding spec_init_enriched spec_set_priority spec_set_local_host_label spec_set_wcet
  hello_task_spec = spec_set_wcet 0 0 (
      spec_set_local_host_label (some (codes "LOCAL_RUNTIME")) (
        spec_set_priority 2 (
          spec_init_enriched (some (codes "HelloWorld")) (some client) (some server) 2048 2048 1000
            (some int_pair_spec) (some old))))

  unfoldable pub sensor_task_spec : Option TaskSpec
  unfolding spec_init_enriched spec_set_priority spec_set_local_host_label
  sensor_task_spec = spec_set_local_host_label (some (codes "LOCAL_RUNTIME")) (
      spec_set_priority 2 (
        spec_init_enriched (some (codes "SensorTask")) (some client) (some server) 2048 2048 1000
          (some int_pair_spec) (some old)))

  unfoldable pub runtime_api_spec : Option TaskSpec
  unfolding spec_init_enriched spec_set_priority spec_set_local_host_label
  runtime_api_spec = spec_set_local_host_label (some (codes "LOCAL_RUNTIME")) (
      spec_set_priority 2 (
        spec_init_enriched (some (codes "RuntimeApi")) (some client) (some server) 2048 2048 1000
          (some int_pair_spec) (some old)))

  -- The assignments of `make_advanced_task_spec`.
  unfoldable pub advanced_task_spec : Option TaskSpec
  unfolding spec_init
  advanced_task_spec =
      change
        (λ s. record s {
          task_name = some (codes "AdvancedTask");
          priority = 2;
          client_task_code = some client;
          server_task_code = some server;
          client_stack_depth = 2048;
          server_stack_depth = 2048;
          core_id = 0;
          app_type = enriched;
          default_execution_site = local_execution;
          pair_spec = int_pair_spec;
          local_host_label = some (codes "LOCAL_RUNTIME");
          period_ms = 1000;
          deadline_ms = 1200;
          delay_weight = 50;
          energy_weight = 50;
          client_wcet = 200;
          server_wcet = 800;
        })
        (spec_init (some old))
