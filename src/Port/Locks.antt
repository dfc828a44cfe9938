-- ===== src/Port/Locks.antt =====
-- The locking discipline and the live blocks, read off a trace of kernel calls.
use edge_aware_tasks_rtos.Prelude.{
  ℕ, [], ◌∷◌, Bool, false, not, ◌&&◌, ◌||◌, some, ◌==◌, if◌then◌else◌,
}
use edge_aware_tasks_rtos.Port.Kernel.{
  Trace, Call, mutex_taken, mutex_given, allocated, freed, queue_created, queue_deleted,
  task_created, task_deleted, task_suspended,
}

-- Which mutex is held; `broken` after a call that the discipline forbids.
pub data Lock : Type 0 where
  free broken : Lock
  held : ℕ → Lock

-- A mutex is taken only while none is held, given back only while it is held, and no call that
-- creates, deletes or suspends a task, or creates or deletes a queue, is made inside.
abbrev pub next_lock : Call → Lock → Lock
next_lock (mutex_taken m) free = held m
next_lock (mutex_given m) (held n) = if m == n then free else broken
next_lock (mutex_taken m) _ = broken
next_lock (mutex_given m) _ = broken
next_lock (queue_created _ _ _) (held _) = broken
next_lock (queue_deleted _) (held _) = broken
next_lock (task_created _ _) (held _) = broken
next_lock (task_deleted _) (held _) = broken
next_lock (task_suspended _) (held _) = broken
next_lock _ l = l

unfoldable pub lock_of : Trace → Lock
lock_of [] = free
lock_of (c ∷ t) = next_lock c (lock_of t)

-- Whether the block at `a` is allocated and not freed.
unfoldable pub is_live : ℕ → Trace → Bool
is_live a [] = false
is_live a (allocated (some b) ∷ t) = (b == a) || is_live a t
is_live a (freed b ∷ t) = not (b == a) && is_live a t
is_live a (_ ∷ t) = is_live a t
