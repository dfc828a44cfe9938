-- ===== src/Facade.antt =====
-- The runtime facade: components/EEAA/src/api/runtime.c over the task manager and the offloader.
pub mod Status
pub mod Control
pub mod Lifecycle
use edge_aware_tasks_rtos.Prelude.{
  Bool, true, false, not, ◌&&◌, ◌||◌, Option, none, some, TextPtr, codes, is_label, ltb,
  if◌then◌else◌,
}
use edge_aware_tasks_rtos.Port.Kernel.{Kernel}
use edge_aware_tasks_rtos.TaskManager.System.{boot, task_manager_init}
use edge_aware_tasks_rtos.Offloader.Types.{
  mode_per_task, Scheduler, scheduler_fp, unnamed_scheduler, Config, zero_config, Policy,
}
use edge_aware_tasks_rtos.Offloader.Policy.{policy_default_for_scheduler}
use edge_aware_tasks_rtos.Offloader.State.{
  World, zero_offloader, offloader_init, offloader_shutdown,
}
use edge_aware_tasks_rtos.Offloader.Run.{run_once}

-- `edge_runtime_config_t`
pub record RuntimeConfig : Type 0 where
  pub offloader : Config
  pub policy : Option Policy

-- The three components; the first two are `g_offloader_state` and the task manager's statics, the
-- fields below them `g_runtime_state`.
pub record App : Type 0 where
  pub world : World
  pub configured : Bool
  pub running : Bool
  pub config : RuntimeConfig

abbrev pub zero_runtime_config : RuntimeConfig
zero_runtime_config = record { offloader = zero_config; policy = none }

abbrev pub boot_app : App
boot_app = record {
  world = record { system = boot; offloader = zero_offloader };
  configured = false;
  running = false;
  config = zero_runtime_config;
}

-- What `runtime_config_apply_defaults` writes.
unfoldable pub default_config : RuntimeConfig
default_config = record {
  offloader = record {
    enabled = true;
    mode = mode_per_task;
    scheduler = scheduler_fp;
    control_period_ms = 100;
    local_host_label = some (codes "LOCAL_RUNTIME");
    remote_host_label = some (codes "REMOTE_RUNTIME");
  };
  policy = none;
}

abbrev change : (RuntimeConfig → RuntimeConfig) → Option RuntimeConfig → Option RuntimeConfig
change f none = none
change f (some c) = some (f c)

-- `edge_runtime_config_init`
unfoldable pub config_init : Option RuntimeConfig → Option RuntimeConfig
unfolding default_config
config_init = change (λ _. default_config)

unfoldable pub config_set_scheduler_policy : Scheduler → Option RuntimeConfig → Option RuntimeConfig
config_set_scheduler_policy p =
    change (λ c. record c { offloader = record (c.offloader) { scheduler = p } })

unfoldable pub config_set_policy : Option Policy → Option RuntimeConfig → Option RuntimeConfig
config_set_policy p = change (λ c. record c { policy = p })

abbrev is_named_scheduler : Scheduler → Bool
is_named_scheduler (unnamed_scheduler _) = false
is_named_scheduler _ = true

-- `runtime_config_is_valid`
unfoldable pub config_is_valid : RuntimeConfig → Bool
config_is_valid c =
    if not c.offloader.enabled
    then true
    else if not (is_named_scheduler c.offloader.scheduler)
    then false
    else (ltb 0 c.offloader.control_period_ms
        && is_label c.offloader.local_host_label
        && is_label c.offloader.remote_host_label)

policy_or : Option Policy → Scheduler → Policy
unfolding policy_default_for_scheduler
policy_or (some p) s = p
policy_or none s = policy_default_for_scheduler s

-- `runtime_policy_or_default`
unfoldable pub runtime_policy_or_default : Option RuntimeConfig → Policy
unfolding policy_or
runtime_policy_or_default none = policy_or none scheduler_fp
runtime_policy_or_default (some c) = policy_or c.policy c.offloader.scheduler

-- `runtime_effective_policy`
unfoldable pub runtime_effective_policy : App → Policy
unfolding runtime_policy_or_default
runtime_effective_policy a =
    runtime_policy_or_default (if a.configured then some a.config else none)

abbrev config_or : Option RuntimeConfig → RuntimeConfig
config_or none = default_config
config_or (some c) = c

-- The configuration that `edge_runtime_start` runs with.
unfoldable pub resolved_config : Option RuntimeConfig → RuntimeConfig
unfolding default_config runtime_policy_or_default
resolved_config c = record (config_or c) {
  policy = some (runtime_policy_or_default (some (config_or c)));
}

module _ (k : Kernel) where
  unfoldable pub runtime_start : Option RuntimeConfig → App → Bool × App
  unfolding resolved_config config_is_valid task_manager_init offloader_init offloader_shutdown
  runtime_start config a =
      if a.running
      then (true, a)
      else let c = resolved_config config in
        if not (config_is_valid c) then (false, a) else (
          true,
          record {
            world = record {
              system = task_manager_init k a.world.system;
              offloader =
                  if c.offloader.enabled
                  then offloader_init (some c.offloader) c.policy
                  else offloader_shutdown;
            };
            configured = true;
            running = true;
            config = c;
          },
        )

  unfoldable pub runtime_start_default : App → Bool × App
  unfolding runtime_start
  runtime_start_default = runtime_start none

  abbrev pub label_or : TextPtr → TextPtr → TextPtr
  label_or none d = d
  label_or (some l) d = some l

  unfoldable pub runtime_start_local_first : (local_label remote_label : TextPtr) → App → Bool × App
  unfolding default_config runtime_start
  runtime_start_local_first l r = runtime_start (
      some (record default_config {
        offloader = record (default_config.offloader) {
          local_host_label = label_or l default_config.offloader.local_host_label;
          remote_host_label = label_or r default_config.offloader.remote_host_label;
        };
      }))

  unfoldable pub runtime_run_once : App → Bool × App
  unfolding run_once
  runtime_run_once a =
      if not a.running || not a.config.offloader.enabled
      then (false, a)
      else let (r, w) = run_once k a.world in (r, record a { world = w })

-- `edge_runtime_stop`
unfoldable pub runtime_stop : App → Bool × App
unfolding offloader_shutdown
runtime_stop a = if not a.configured && not a.running then (true, a) else (
  true,
  record a { world = record (a.world) { offloader = offloader_shutdown }; running = false },
)

-- `edge_runtime_state_t`
pub data RuntimeState : Type 0 where
  stopped ready running_state : RuntimeState

unfoldable pub runtime_state : App → RuntimeState
runtime_state a = if a.running then running_state else if a.configured then ready else stopped
