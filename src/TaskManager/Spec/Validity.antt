-- ===== src/TaskManager/Spec/Validity.antt =====
-- The initialisers of task specifications against `edge_task_spec_is_valid`.
use edge_aware_tasks_rtos.Prelude.{
  ℕ, ◌≡◌, Bool, true, ◌&&◌, Option, none, some, TextPtr, is_label, is_some, ltb, arith,
}
use edge_aware_tasks_rtos.TaskManager.Types.{PairSpec, TaskSpec}
use edge_aware_tasks_rtos.TaskManager.Spec.{
  spec_init_enriched, spec_validate, spec_resolve_deadline_ms,
}

-- No specification of the queues, or one with a depth and a message size.
abbrev pub has_queues : Option PairSpec → Bool
has_queues none = true
has_queues (some p) = ltb 0 p.queue_depth && ltb 0 p.message_size

module _ (name : TextPtr) where
  -- An initialised specification of a pair is valid exactly if it has a name, both functions, both
  -- stacks and a period, and either no specification of the queues or one with a depth and a
  -- message size, whatever the memory held before; its deadline is the period.
  pub spec_init_enriched-spec_validate :
      (client server : Option ℕ) (client_stack server_stack period : ℕ) (p : Option PairSpec)
      (old : TaskSpec)
      → (spec_validate
            (spec_init_enriched name client server client_stack server_stack period p (some old))
          ≡ (is_label name
              && is_some client
              && is_some server
              && ltb 0 client_stack
              && ltb 0 server_stack
              && ltb 0 period
              && has_queues p))
        × (spec_resolve_deadline_ms
              (spec_init_enriched name client server client_stack server_stack period p (some old))
            ≡ period)
  unfolding spec_init_enriched spec_validate spec_resolve_deadline_ms
  spec_init_enriched-spec_validate client server cs vs period none old = ground arith
  spec_init_enriched-spec_validate client server cs vs period (some p) old = ground arith
