-- ===== src/Port/Board.antt =====
-- components/EEAA/src/port/port_board_esp32.c: cycle counts their conversion, and the
-- cores. The clock frequency in Hz, the cycle counter and the core come from ESP-IDF and are
-- arguments.
use edge_aware_tasks_rtos.Prelude.{
  ℕ, ◌+◌, ◌-◌, ◌*◌, ◌/◌, ◌%◌, ◌<◌, ◌≡◌, Option, none, some, ltb, leb, ◌==◌, if◌then◌else◌, u32,
  u32_mod, arith,
}

-- What `xPortGetCoreID` returns, as a uint8_t.
unfoldable pub get_core_id : (raw : ℕ) → ℕ
get_core_id raw = raw % 256

-- `portNUM_PROCESSORS` where it is defined.
unfoldable pub get_num_cores : Option ℕ → ℕ
get_num_cores none = 2
get_num_cores (some n) = n % 256

unfoldable pub get_cpu_cycles : (count : ℕ) → ℕ
get_cpu_cycles count = u32 count

unfoldable pub get_cpu_freq : (hz : ℕ) → ℕ
get_cpu_freq hz = u32 hz / 1000000

unfoldable pub get_cpu_cycles_per_ms : (hz : ℕ) → ℕ
unfolding get_cpu_freq
get_cpu_cycles_per_ms hz = u32 (get_cpu_freq hz * 1000)

unfoldable pub cycles_to_ms : (hz cycles : ℕ) → ℕ
unfolding get_cpu_freq
cycles_to_ms hz cycles = if get_cpu_freq hz == 0 then 0 else cycles / u32 (get_cpu_freq hz * 1000)

-- none is the division by zero, which is undefined behaviour.
unfoldable pub cpu_cycles_to_ms : (hz cycles : ℕ) → Option ℕ
unfolding get_cpu_cycles_per_ms
cpu_cycles_to_ms hz cycles =
    if get_cpu_cycles_per_ms hz == 0 then none else some (cycles / get_cpu_cycles_per_ms hz)

-- Both branches of the source; the sum is a uint32_t.
unfoldable pub cpu_cycles_delta : (current previous : ℕ) → ℕ
cpu_cycles_delta current previous =
    if leb previous current
    then current - previous
    else u32 ((u32_mod - 1 - previous) + current + 1)

-- The cycle delta of a 32-bit counter is the number of cycles that elapsed, if they are fewer than
-- 2 ^ 32, whether or not the counter wrapped.
pub cpu_cycles_delta_mod :
    (previous elapsed : ℕ)
    → previous < u32_mod
    → elapsed < u32_mod
    → cpu_cycles_delta (u32 (previous + elapsed)) previous ≡ elapsed
unfolding cpu_cycles_delta
cpu_cycles_delta_mod previous elapsed p e = ground arith

-- The two conversions of cycles to milliseconds agree where the frequency is at least 1 MHz, and
-- below it cpu_cycles_to_ms has no result.
pub cpu_cycles_to_ms-cycles_to_ms :
    (hz cycles : ℕ)
    → cpu_cycles_to_ms hz cycles
      ≡ (if ltb (u32 hz) 1000000 then none else some (cycles_to_ms hz cycles))
unfolding cpu_cycles_to_ms cycles_to_ms
cpu_cycles_to_ms-cycles_to_ms hz cycles = ground arith
