-- ===== src/Offloader/State.antt =====
-- The state of offloader.c, its life cycle and its event counters.
use edge_aware_tasks_rtos.Prelude.{
  ◌+◌, ℤ, Bool, true, false, ◌&&◌, Option, none, some, TextPtr, is_label, is_some, ltb,
  if◌then◌else◌, u32,
}
use edge_aware_tasks_rtos.TaskManager.System.{System}
use edge_aware_tasks_rtos.Offloader.Types.{
  Route, route_remote, EventType, event_route_local, event_route_remote, Mode, mode_batch,
  mode_per_task, PolicyStatus, status_ok, Config, Policy, PolicyContext, Event, Observability,
  zero_config, zero_policy, zero_event,
}
use edge_aware_tasks_rtos.Offloader.Policy.{policy_default_for_scheduler}

-- `edge_offloader_state_t`
pub record Offloader : Type 0 where
  pub initialized : Bool
  pub config : Config
  pub policy : Policy
  pub observed : Observability

abbrev pub zero_observability : Observability
zero_observability = record {
  total_events = 0;
  route_change_events = 0;
  failure_events = 0;
  local_route_events = 0;
  remote_route_events = 0;
  has_last_event = false;
  last_event = zero_event;
}

abbrev pub zero_offloader : Offloader
zero_offloader = record {
  initialized = false;
  config = zero_config;
  policy = zero_policy;
  observed = zero_observability;
}

-- The two components that a routing cycle works on.
pub record World : Type 0 where
  pub system : System
  pub offloader : Offloader

-- `offloader_config_ready`
unfoldable pub config_ready : Config → Bool
config_ready c =
    c.enabled
    && ltb 0 c.control_period_ms
    && is_label c.local_host_label
    && is_label c.remote_host_label

-- `offloader_state_ready`
unfoldable pub state_ready : Offloader → Bool
unfolding config_ready
state_ready o = o.initialized && config_ready o.config && is_some o.policy.evaluate

-- `offloader_policy_context`
unfoldable pub policy_context : Offloader → PolicyContext
policy_context o = record {
  config = o.config;
  scheduler = o.config.scheduler;
  mode = o.config.mode;
}

abbrev is_batch : Mode → Bool
is_batch mode_batch = true
is_batch mode_per_task = false

-- `offloader_batch_mode_enabled`
unfoldable pub batch_mode_enabled : Offloader → Bool
batch_mode_enabled o = is_batch o.config.mode

-- `offloader_resolve_host`
unfoldable pub resolve_host : Route → Offloader → TextPtr
resolve_host route_remote o = o.config.remote_host_label
resolve_host _ o = o.config.local_host_label

-- The counters that an event of a type adds to.
unfoldable pub count_event : EventType → Observability → Observability
count_event event_route_local v = record v {
  total_events = u32 (v.total_events + 1);
  route_change_events = u32 (v.route_change_events + 1);
  local_route_events = u32 (v.local_route_events + 1);
}
count_event event_route_remote v = record v {
  total_events = u32 (v.total_events + 1);
  route_change_events = u32 (v.route_change_events + 1);
  remote_route_events = u32 (v.remote_route_events + 1);
}
count_event _ v = record v {
  total_events = u32 (v.total_events + 1);
  failure_events = u32 (v.failure_events + 1);
}

-- `offloader_observability_record`, which `offloader_record_failure_event` calls unchanged.
unfoldable pub observability_record : EventType → ℤ → Route → PolicyStatus → Offloader → Offloader
unfolding count_event
observability_record type i route status o = record o {
  observed = record (count_event type o.observed) {
    has_last_event = true;
    last_event = record {
      sequence = u32 (o.observed.total_events + 1);
      task_index = i;
      route = route;
      event_type = type;
      policy_status = status;
    };
  };
}

abbrev pub route_event : Route → EventType
route_event route_remote = event_route_remote
route_event _ = event_route_local

-- `offloader_record_route_event`
unfoldable pub record_route_event : ℤ → Route → Offloader → Offloader
unfolding observability_record
record_route_event i route = observability_record (route_event route) i route status_ok

-- The failure event on the world.
unfoldable pub fail_event : EventType → ℤ → Route → PolicyStatus → World → World
unfolding observability_record
fail_event type i route status w = record w {
  offloader = observability_record type i route status w.offloader;
}

abbrev config_or_zero : Option Config → Config
config_or_zero none = zero_config
config_or_zero (some c) = c

abbrev policy_or_default : Option Policy → Config → Policy
policy_or_default (some p) c = p
policy_or_default none c = policy_default_for_scheduler c.scheduler

-- `edge_offloader_init`, whatever the state before.
unfoldable pub offloader_init : Option Config → Option Policy → Offloader
unfolding policy_default_for_scheduler
offloader_init config policy = record zero_offloader {
  initialized = true;
  config = config_or_zero config;
  policy = policy_or_default policy (config_or_zero config);
}

-- `edge_offloader_shutdown`
unfoldable pub offloader_shutdown : Offloader
offloader_shutdown = zero_offloader

unfoldable pub current_config : Offloader → Option Config
current_config o = if o.initialized then some o.config else none

unfoldable pub current_policy : Offloader → Option Policy
current_policy o = if o.initialized then some o.policy else none

abbrev last_if : Bool → Event → Event
last_if true e = e
last_if false e = zero_event

-- `edge_offloader_observability`: the snapshot after the call, where there is one.
unfoldable pub offloader_observability :
    Option Observability → Offloader → Bool × Option Observability
offloader_observability none o = (false, none)
offloader_observability (some out) o =
    if o.initialized
    then (
      true,
      some (record o.observed {
        last_event = last_if o.observed.has_last_event o.observed.last_event;
      }),
    )
    else (false, some out)
