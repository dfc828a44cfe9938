-- ===== src/Facade/Status.antt =====
-- The read-only part of components/EEAA/src/api/runtime.c: status and diagnostics.
pub mod Reported
use edge_aware_tasks_rtos.Prelude.{ℕ, Bool, ◌&&◌, Option, none, some, TextPtr, if◌then◌else◌}
use edge_aware_tasks_rtos.Port.Kernel.{Kernel}
use edge_aware_tasks_rtos.TaskManager.Access.{get_num_monitored_tasks}
use edge_aware_tasks_rtos.Offloader.Types.{Mode, Scheduler, Observability}
use edge_aware_tasks_rtos.Offloader.State.{zero_observability, offloader_observability}
use edge_aware_tasks_rtos.Offloader.Cycle.{collect_candidates}
use edge_aware_tasks_rtos.Facade.{App, RuntimeConfig, zero_runtime_config, runtime_effective_policy}

-- `edge_runtime_status_t`
pub record RuntimeStatus : Type 0 where
  pub configured : Bool
  pub running : Bool
  pub offloader_enabled : Bool
  pub offloader_mode : Mode
  pub scheduler_policy : Scheduler
  pub control_period_ms : ℕ
  pub monitored_tasks : ℕ
  pub client_candidates : ℕ
  pub policy_name : TextPtr
  pub local_host_label : TextPtr
  pub remote_host_label : TextPtr

-- `edge_runtime_diagnostics_t`
pub record RuntimeDiagnostics : Type 0 where
  pub status : RuntimeStatus
  pub observed : Observability

abbrev pub active_config : App → RuntimeConfig
active_config a = if a.configured then a.config else zero_runtime_config

module _ (k : Kernel) where
  -- `edge_runtime_status` with a buffer to write to.
  unfoldable pub runtime_status : App → RuntimeStatus × App
  unfolding get_num_monitored_tasks collect_candidates runtime_effective_policy
  runtime_status a =
      let c = (active_config a).offloader in
      let (tasks, s1) = get_num_monitored_tasks k a.world.system in
      let (clients, _, s2) = collect_candidates k none 0 s1 in
      let looks = a.running && c.enabled in
      (
        record {
          configured = a.configured;
          running = a.running;
          offloader_enabled = c.enabled;
          offloader_mode = c.mode;
          scheduler_policy = c.scheduler;
          control_period_ms = c.control_period_ms;
          monitored_tasks = tasks;
          client_candidates = if looks then clients else 0;
          policy_name = if a.configured then (runtime_effective_policy a).name else none;
          local_host_label = c.local_host_label;
          remote_host_label = c.remote_host_label;
        },
        record a { world = record (a.world) { system = if looks then s2 else s1 } },
      )

  abbrev observed_or : Option Observability → Observability
  observed_or none = zero_observability
  observed_or (some o) = o

  -- `edge_runtime_diagnostics` with a buffer to write to.
  unfoldable pub runtime_diagnostics : App → RuntimeDiagnostics × App
  unfolding runtime_status offloader_observability
  runtime_diagnostics a =
      let (st, b) = runtime_status a in
      let (ok, out) = offloader_observability (some zero_observability) b.world.offloader in
      (record { status = st; observed = if ok then observed_or out else zero_observability }, b)
