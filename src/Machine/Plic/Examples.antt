-- ===== src/Machine/Plic/Examples.antt =====
-- The interrupt controller with line 5 raised and line 9 being served.
use vpod.Prelude.{◌≡◌, ◌≢◌, refl, true, arith, ◌+◌, ◌^◌, some, List, [], ◌∷◌}
use vpod.Bits.{bit, trailing_zeros}
use vpod.Machine.Plic.{Plic, set_irq, read_register, write_register, claim_complete_offset}
use vpod.Machine.Plic.Laws.{IsValid, Claimed, claim-Claimed}
use vpod.Machine.Plic.Protocol.{Op, level, claim, complete, run, step, claimed_once}

abbrev busy : Plic
busy = record { pending = 2 ^ 5; served = 2 ^ 9 }

busy-IsValid : IsValid busy
unfolding bit
busy-IsValid = record { pending_fits = omega arith; served_fits = omega arith; no_line_zero = refl }

claim-Claimed_example : Claimed busy (read_register busy claim_complete_offset)
claim-Claimed_example = claim-Claimed busy busy-IsValid

claims_five : (read_register busy claim_complete_offset).1 ≡ 5
unfolding read_register trailing_zeros
claims_five = refl

-- After the claim of line 5: line 3 is raised, claimed and completed.
abbrev others : List Op
others = level 3 true ∷ claim ∷ complete 3 ∷ []

abbrev after_others : Plic
after_others = record { pending = 2 ^ 5 + 2 ^ 3; served = 2 ^ 9 + 2 ^ 5 }

runs : run (read_register busy claim_complete_offset).0 others ≡ some after_others
unfolding run step read_register write_register set_irq trailing_zeros
runs = refl

claimed_five : (read_register busy claim_complete_offset).1 ≢ 0
unfolding read_register trailing_zeros
claimed_five = omega arith

five_is_not_three : 3 ≢ (read_register busy claim_complete_offset).1
unfolding read_register trailing_zeros
five_is_not_three = omega arith

claimed_once_example :
    (read_register after_others claim_complete_offset).1
    ≢ (read_register busy claim_complete_offset).1
claimed_once_example =
    claimed_once busy after_others others busy-IsValid claimed_five (five_is_not_three, tt) runs
