-- ===== src/RiscvCore/Csr/Examples.antt =====
-- Registers with a machine and two supervisor interrupts pending.
use vpod.Prelude.{◌+◌, ◌^◌, ◌≡◌, refl, some, arith}
use vpod.RiscvCore.Csr.{Csr, new, user, machine}
use vpod.RiscvCore.Csr.Registers.{read_register, write_register}
use vpod.RiscvCore.Csr.Interrupts.{pending_interrupt, highest_priority_interrupt_bit, first_set}
use vpod.RiscvCore.Csr.Delivery.{AreWords, Chosen, pending_interrupt-Chosen}
use vpod.RiscvCore.Csr.Access.{access_ignores_mode}

-- MTI, SEI and STI are pending and enabled, SEI and STI are delegated.
abbrev busy : Csr
unfolding new
busy = record new {
  mip = 2 ^ 7 + 2 ^ 9 + 2 ^ 5;
  mie = 2 ^ 7 + 2 ^ 9 + 2 ^ 5;
  mideleg = 2 ^ 9 + 2 ^ 5;
  mstatus = 2 ^ 1;
}

busy-AreWords : AreWords busy
unfolding busy
busy-AreWords = record {
  mip_word = omega arith;
  mie_word = omega arith;
  mideleg_word = omega arith;
  mstatus_word = omega arith;
}

-- The machine's timer comes first.
pending_interrupt_user : pending_interrupt busy user ≡ some 7
unfolding pending_interrupt busy highest_priority_interrupt_bit first_set
pending_interrupt_user = refl

pending_interrupt-Chosen_example : Chosen busy user (pending_interrupt busy user)
pending_interrupt-Chosen_example = pending_interrupt-Chosen busy user busy-AreWords

access_ignores_mode_example :
    (read_register busy 0x300 user ≡ read_register busy 0x300 machine)
    × (write_register busy 0x300 8 user ≡ write_register busy 0x300 8 machine)
access_ignores_mode_example = access_ignores_mode busy 0x300 8 user machine refl
