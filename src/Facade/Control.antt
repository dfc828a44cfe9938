-- ===== src/Facade/Control.antt =====
-- Starting, stopping and running once: results and states.
use edge_aware_tasks_rtos.Prelude.{
  ◌≡◌, true, false, not, ◌&&◌, ◌||◌, Option, arith, inl, inr, Bool-cases, if◌then◌else◌,
}
use edge_aware_tasks_rtos.Port.Kernel.{Kernel}
use edge_aware_tasks_rtos.Facade.{
  RuntimeConfig, App, resolved_config, config_is_valid, runtime_start, runtime_run_once,
  runtime_stop, runtime_state, stopped, ready,
}

module _ (k : Kernel) where
  -- A start reports whether the runtime runs afterwards; it reports a refusal exactly if the
  -- runtime did not run and the resolved configuration is not valid, and then changes nothing.
  pub runtime_start_result :
      (c : Option RuntimeConfig) (a : App)
      → ((runtime_start k c a).0 ≡ (runtime_start k c a).1.running)
        × ((runtime_start k c a).0 ≡ (a.running || config_is_valid (resolved_config c)))
        × ((if (runtime_start k c a).0 then a else (runtime_start k c a).1) ≡ a)
  unfolding runtime_start
  runtime_start_result c a = elim (Bool-cases a.running) [
    | inl on ↦ ground (arith, on)
    | inr off ↦ elim (Bool-cases (config_is_valid (resolved_config c))) [
      | inl good ↦ ground (arith, off, good)
      | inr bad ↦ ground (arith, off, bad)
    ]
  ]

  -- A second start changes nothing once a start succeeded, whatever its configuration.
  pub runtime_start_again :
      (c d : Option RuntimeConfig) (a : App)
      → (runtime_start k c a).0 ≡ true
      → runtime_start k d (runtime_start k c a).1 ≡ (true, (runtime_start k c a).1)
  unfolding runtime_start
  runtime_start_again c d a h = elim (Bool-cases a.running) [
    | inl on ↦ ground (arith, on)
    | inr off ↦ elim (Bool-cases (config_is_valid (resolved_config c))) [
      | inl good ↦ ground (arith, off, good)
      | inr bad ↦ ground (arith, off, bad, h)
    ]
  ]

  -- A stop always succeeds, is idempotent, leaves the task manager as it is, and leaves the
  -- runtime ready if it was configured and stopped otherwise, after which no routing cycle runs.
  pub runtime_stop_state :
      (a : App)
      → ((runtime_stop a).0 ≡ true)
        × (runtime_stop (runtime_stop a).1 ≡ runtime_stop a)
        × ((runtime_stop a).1.world.system ≡ a.world.system)
        × (runtime_state (runtime_stop a).1 ≡ (if a.configured then ready else stopped))
        × (runtime_run_once k (runtime_stop a).1 ≡ (false, (runtime_stop a).1))
  unfolding runtime_stop runtime_state runtime_run_once
  runtime_stop_state a = elim (Bool-cases (not a.configured && not a.running)) [
    | inl idle ↦ ground (arith, idle)
    | inr busy ↦ ground (arith, busy)
  ]
