-- ===== src/Machine/Clint/Examples.antt =====
-- The timer with its compare register 50 ticks ahead.
use vpod.Prelude.{◌⊎◌, ◌≡◌, refl, true, false, arith, ◌≤◌, some}
use vpod.Machine.Clint.{Clint, advance_by_nanos, nanos_until_timer, get_interrupt_status}
use vpod.Machine.Clint.Laws.{IsValid, nanos_until_timer_exact}

abbrev armed : Clint
armed = record { mtimecmp = 150; msip = 0; mtime = 100; instruction_counter = 7 }

armed-IsValid : IsValid armed
armed-IsValid = omega arith

waits_5000 : nanos_until_timer armed ≡ some 5000
unfolding nanos_until_timer
waits_5000 = refl

nanos_until_timer_exact_example :
    ((get_interrupt_status (advance_by_nanos armed 5000)).0 ≡ true)
    × ((5000 ≤ 4999) ⊎ ((get_interrupt_status (advance_by_nanos armed 4999)).0 ≡ false))
nanos_until_timer_exact_example =
    nanos_until_timer_exact armed 5000 4999 armed-IsValid (omega arith) waits_5000
