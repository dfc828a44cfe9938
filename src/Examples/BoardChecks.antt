-- ===== src/Examples/BoardChecks.antt =====
-- The checks of components/EEAA/examples/port/port_board_example.c. The clock frequency in Hz, the
-- cycle counter and the core are arguments, as in Port/Board.
use edge_aware_tasks_rtos.Prelude.{
  ℕ, ◌+◌, ◌-◌, ◌*◌, ◌/◌, ◌<◌, ◌≤◌, ◌≡◌, refl, sym, ◌∙◌, ap, Bool, true, false, ◌&&◌, Option, ltb,
  leb, ◌==◌, u32, u32_mod, if◌then◌else◌, arith, inl, inr, Bool-cases,
}
use native.Mathlib.Nat.{le-div_iff_mul-le, div-lt_iff_lt-mul}
use edge_aware_tasks_rtos.Port.Kernel.{Kernel, Trace}
use edge_aware_tasks_rtos.Port.Rtos.{delay_milliseconds}
use edge_aware_tasks_rtos.Port.Board.{
  get_core_id, get_num_cores, get_cpu_freq, get_cpu_cycles_per_ms, get_cpu_cycles, cycles_to_ms,
  cpu_cycles_delta, cpu_cycles_delta_mod,
}

-- The test of `test_core_identification`.
unfoldable pub core_is_valid : (raw : ℕ) (processors : Option ℕ) → Bool
unfolding get_core_id get_num_cores
core_is_valid raw processors = ltb (get_core_id raw) (get_num_cores processors)

-- The test of `test_core_affinity`.
unfoldable pub is_multi_core : (processors : Option ℕ) → Bool
unfolding get_num_cores
is_multi_core processors = ltb 1 (get_num_cores processors)

-- The test of `test_cpu_timing`.
unfoldable pub timing_is_consistent : (hz : ℕ) → Bool
unfolding get_cpu_freq get_cpu_cycles_per_ms
timing_is_consistent hz = get_cpu_cycles_per_ms hz == u32 (get_cpu_freq hz * 1000)

-- The delta that the example computes itself.
unfoldable pub example_delta : (before after : ℕ) → ℕ
example_delta before after =
    if leb before after then after - before else u32 ((0xFFFFFFFF - before) + 1 + after)

-- `test_cycle_counting`, with the counter read before and after the delay.
unfoldable pub conversion_is_accurate : (hz before after : ℕ) → Bool
unfolding get_cpu_cycles example_delta cycles_to_ms
conversion_is_accurate hz before after =
    let ms = cycles_to_ms hz (example_delta (get_cpu_cycles before) (get_cpu_cycles after)) in
    leb 95 ms && leb ms 110

unfoldable pub wait_for_cycles : Kernel → Trace → Trace
unfolding delay_milliseconds
wait_for_cycles k = delay_milliseconds k 100

-- T1
pub example_delta-cpu_cycles_delta :
    (before after : ℕ)
    → before < u32_mod
    → example_delta before after ≡ cpu_cycles_delta after before
unfolding example_delta cpu_cycles_delta
example_delta-cpu_cycles_delta before after p = ground arith

le_agree : (q e : ℕ) → 0 < q → leb 95 (e / q) ≡ leb (95 * q) e
le_agree q e positive = elim (Bool-cases (leb (95 * q) e)) [
  | inl y ↦
      rw y (
        let l : 95 ≤ e / q = (le-div_iff_mul-le positive).1 (ground (arith, y)) in
        ground (arith, l))
  | inr n ↦ elim (Bool-cases (leb 95 (e / q))) [
    | inr m ↦ m ∙ sym n
    | inl y ↦
        let l : 95 * q ≤ e = (le-div_iff_mul-le positive).0 (ground (arith, y)) in
        ground (arith, n, l)
  ]
]

lt_agree : (q e : ℕ) → 0 < q → leb (e / q) 110 ≡ ltb e (111 * q)
lt_agree q e positive = elim (Bool-cases (ltb e (111 * q))) [
  | inl y ↦ rw y (
      let l : e / q < 111 = (div-lt_iff_lt-mul positive).1 (ground (arith, y)) in ground (arith, l))
  | inr n ↦ elim (Bool-cases (leb (e / q) 110)) [
    | inr m ↦ m ∙ sym n
    | inl y ↦
        let l : e < 111 * q = (div-lt_iff_lt-mul positive).0 (ground (arith, y)) in
        ground (arith, n, l)
  ]
]

cycles_to_ms_lem :
    (hz e : ℕ)
    → 1000000 ≤ u32 hz
    → (0 < get_cpu_cycles_per_ms hz) × (cycles_to_ms hz e ≡ e / get_cpu_cycles_per_ms hz)
unfolding cycles_to_ms get_cpu_cycles_per_ms get_cpu_freq
cycles_to_ms_lem hz e fast =
    let some_mhz : (u32 hz / 1000000 == 0) ≡ false = ground (arith, fast) in
    (omega (arith, fast), rw some_mhz refl)

delta_lem :
    (before elapsed : ℕ)
    → before < u32_mod
    → elapsed < u32_mod
    → example_delta (get_cpu_cycles before) (get_cpu_cycles (before + elapsed)) ≡ elapsed
unfolding get_cpu_cycles
delta_lem before elapsed b e =
    let same : u32 before ≡ before = omega (arith, b) in
    ap (λ x. example_delta x (u32 (before + elapsed))) same
    ∙ example_delta-cpu_cycles_delta before (u32 (before + elapsed)) b
    ∙ cpu_cycles_delta_mod before elapsed b e

-- At a clock of 1 MHz or more and for fewer than 2 ^ 32 elapsed cycles, whether or not the counter
-- wrapped, the board example finds its conversion accurate exactly if the elapsed cycles are at
-- least 95 and fewer than 111 milliseconds of the clock.
pub conversion_is_accurate_iff :
    (hz before elapsed : ℕ)
    → 1000000 ≤ u32 hz
    → before < u32_mod
    → elapsed < u32_mod
    → conversion_is_accurate hz before (before + elapsed) ≡ (
        leb (95 * get_cpu_cycles_per_ms hz) elapsed && ltb elapsed (111 * get_cpu_cycles_per_ms hz))
unfolding conversion_is_accurate
conversion_is_accurate_iff hz before elapsed fast b e =
    let q = get_cpu_cycles_per_ms hz in
    let (positive, ms) = cycles_to_ms_lem hz elapsed fast in
    ap (λ d. leb 95 (cycles_to_ms hz d) && leb (cycles_to_ms hz d) 110)
      (delta_lem before elapsed b e)
    ∙ ap (λ m. leb 95 m && leb m 110) ms
    ∙ ap (λ x. x && leb (elapsed / q) 110) (le_agree q elapsed positive)
    ∙ ap (λ x. leb (95 * q) elapsed && x) (lt_agree q elapsed positive)

timing_is_consistent_lem : (hz : ℕ) → timing_is_consistent hz ≡ true
unfolding timing_is_consistent get_cpu_cycles_per_ms
timing_is_consistent_lem hz = ground arith
