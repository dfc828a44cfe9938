-- ===== src/Offloader/Invariant.antt =====
-- What the routing functions of offloader.c keep: the task manager's invariant, the event counters'
-- sums, and the configuration that `edge_offloader_init` stored.
pub mod Cycle
pub mod Run
pub mod Batch
pub mod Applied
use edge_aware_tasks_rtos.Prelude.{◌+◌, ◌≡◌, ℤ, arith, u32}
use edge_aware_tasks_rtos.TaskManager.System.{System}
use edge_aware_tasks_rtos.TaskManager.Invariant.{Inv}
use edge_aware_tasks_rtos.Offloader.Types.{
  Route, EventType, event_route_local, event_route_remote, event_policy_rejected,
  event_invalid_vector, event_mutation_failed, unnamed_event, PolicyStatus, status_ok,
  Observability,
}
use edge_aware_tasks_rtos.Offloader.State.{
  Offloader, World, count_event, observability_record, record_route_event, route_event, fail_event,
}

-- The totals are the sums of their parts, modulo 2 ^ 32.
pub record IsTallied (v : Observability) : Type 0 where
  pub total : v.total_events ≡ u32 (v.route_change_events + v.failure_events)
  pub routes : v.route_change_events ≡ u32 (v.local_route_events + v.remote_route_events)

-- A world that routing functions reach from one whose offloader is `o`.
pub record IsRouted (o : Offloader) (w : World) : Type 0 where
  pub between_calls : Inv w.system
  pub tallied : IsTallied w.offloader.observed
  pub initialized : w.offloader.initialized ≡ o.initialized
  pub config : w.offloader.config ≡ o.config
  pub policy : w.offloader.policy ≡ o.policy

count_event-IsTallied :
    (t : EventType) {v : Observability} → IsTallied v → IsTallied (count_event t v)
unfolding count_event
count_event-IsTallied event_route_local h = record {
  total = omega (arith, h.total);
  routes = omega (arith, h.routes);
}
count_event-IsTallied event_route_remote h = record {
  total = omega (arith, h.total);
  routes = omega (arith, h.routes);
}
count_event-IsTallied event_policy_rejected h = record {
  total = omega (arith, h.total);
  routes = h.routes;
}
count_event-IsTallied event_invalid_vector h = record {
  total = omega (arith, h.total);
  routes = h.routes;
}
count_event-IsTallied event_mutation_failed h = record {
  total = omega (arith, h.total);
  routes = h.routes;
}
count_event-IsTallied (unnamed_event _) h = record {
  total = omega (arith, h.total);
  routes = h.routes;
}

-- Every event that is recorded keeps the sums.
pub observability_record-IsTallied :
    (t : EventType) (i : ℤ) (r : Route) (st : PolicyStatus) (o : Offloader)
    → IsTallied o.observed
    → IsTallied (observability_record t i r st o).observed
unfolding observability_record
observability_record-IsTallied t i r st o h =
    let c = count_event-IsTallied t h in record { total = c.total; routes = c.routes }

module _ {o : Offloader} where
  -- Only the system changed.
  pub system-IsRouted :
      {w : World} {s : System} → IsRouted o w → Inv s → IsRouted o (record w { system = s })
  system-IsRouted v i = record {
    between_calls = i;
    tallied = v.tallied;
    initialized = v.initialized;
    config = v.config;
    policy = v.policy;
  }

  pub fail_event-IsRouted :
      (t : EventType) (i : ℤ) (r : Route) (st : PolicyStatus) {w : World}
      → IsRouted o w
      → IsRouted o (fail_event t i r st w)
  unfolding fail_event observability_record
  fail_event-IsRouted t i r st {w} v = record {
    between_calls = v.between_calls;
    tallied = observability_record-IsTallied t i r st w.offloader v.tallied;
    initialized = v.initialized;
    config = v.config;
    policy = v.policy;
  }

  pub route_recorded-IsRouted :
      (i : ℤ) (r : Route) {w : World}
      → IsRouted o w
      → IsRouted o (record w { offloader = record_route_event i r w.offloader })
  unfolding record_route_event observability_record
  route_recorded-IsRouted i r {w} v = record {
    between_calls = v.between_calls;
    tallied = observability_record-IsTallied (route_event r) i r status_ok w.offloader v.tallied;
    initialized = v.initialized;
    config = v.config;
    policy = v.policy;
  }
