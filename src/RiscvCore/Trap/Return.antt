-- ===== src/RiscvCore/Trap/Return.antt =====
-- SRET and MRET after a trap, in crates/riscv-core/src/execute.rs: the hart goes back to where it was.
use vpod.Prelude.{
  ℕ, ◌^◌, ◌<◌, bit_and, bit_or, has, Bool, true, false, not, ◌&&◌, ◌||◌, ◌==◌, ◌≡◌, ◌≢◌, refl, ◌∙◌,
  if◌then◌else◌, arith,
}
use vpod.Bits.{bit, and-le, and-pow, or-lt}
use vpod.RiscvCore.Csr.{PrivMode, user, supervisor, machine, mode_bits}
use vpod.RiscvCore.Csr.Interrupts.{is_machine}
use vpod.RiscvCore.Trap.{
  ExecContext, take_interrupt, take_exception, sret, mret, stack_supervisor, stack_machine,
  enter_supervisor, enter_machine,
}
use vpod.RiscvCore.Trap.Fields.{
  supervisor_bit, stack_supervisor-bit, mpp_low, mpp_high, stack_machine-bit,
  unstack_supervisor-bit, unstack_machine-bit, from_bits-spp, from_bits-mpp,
}

-- `ctx` after a trap and the return from it: the same instruction in the same mode, with `mstatus`
-- the same but for the bits that the return sets and the bits that it clears.
pub record Resumed (ctx after : ExecContext) (set clear : ℕ → Bool) : Type 0 where
  pub same_pc : after.pc ≡ ctx.pc
  pub same_mode : after.priv_mode ≡ ctx.priv_mode
  pub same_mstatus :
      (i : ℕ)
      → i < 64
      → bit after.csr.mstatus i ≡ (not (clear i) && (set i || bit ctx.csr.mstatus i))

-- SPIE is set and SPP cleared.
abbrev pub SupervisorResumed : ExecContext → ExecContext → Type 0
SupervisorResumed ctx after = Resumed ctx after (λ i. i == 5) (λ i. i == 8)

-- MPIE is set and MPP cleared.
abbrev pub MachineResumed : ExecContext → ExecContext → Type 0
MachineResumed ctx after = Resumed ctx after (λ i. i == 7) (λ i. i == 11 || i == 12)

and-lt : (a b : ℕ) → a < 2 ^ 64 → bit_and a b < 2 ^ 64
and-lt a b h = omega (arith, and-le 64 a b h)

mode_bits-lt : (p : PrivMode) → mode_bits p < 4
mode_bits-lt user = omega arith
mode_bits-lt supervisor = omega arith
mode_bits-lt machine = omega arith

stack_supervisor-lt : (m : ℕ) (p : PrivMode) → m < 2 ^ 64 → stack_supervisor m p < 2 ^ 64
unfolding stack_supervisor
stack_supervisor-lt m p h =
    or-lt 64 _ _
      (and-lt _ _ (and-lt _ _ (or-lt 64 _ _ (and-lt m _ h) (ground (arith, and-pow 64 1 m h)))))
      (omega (arith, mode_bits-lt p))

stack_machine-lt : (m : ℕ) (p : PrivMode) → m < 2 ^ 64 → stack_machine m p < 2 ^ 64
unfolding stack_machine
stack_machine-lt m p h =
    or-lt 64 _ _
      (and-lt _ _ (and-lt _ _ (or-lt 64 _ _ (and-lt m _ h) (ground (arith, and-pow 64 3 m h)))))
      (omega (arith, mode_bits-lt p))

supervisor_mode : (p : PrivMode) → p ≢ machine → (if supervisor_bit p then supervisor else user) ≡ p
supervisor_mode user h = refl
supervisor_mode supervisor h = refl
supervisor_mode machine h = absurd (h refl)

machine_mode :
    (p : PrivMode) → (if mpp_high p then machine else if mpp_low p then supervisor else user) ≡ p
machine_mode user = refl
machine_mode supervisor = refl
machine_mode machine = refl

not_machine : (p : PrivMode) → p ≢ machine → is_machine p ≡ false
not_machine user h = refl
not_machine supervisor h = refl
not_machine machine h = absurd (h refl)

enter_supervisor-sret :
    (ctx : ExecContext) (cause tval : ℕ)
    → ctx.csr.mstatus < 2 ^ 64
    → ctx.priv_mode ≢ machine
    → SupervisorResumed ctx (sret (enter_supervisor ctx cause tval))
unfolding enter_supervisor sret
enter_supervisor-sret ctx cause tval h np =
    let m = ctx.csr.mstatus in
    let p = ctx.priv_mode in
    let h' = stack_supervisor-lt m p h in
    record {
      same_pc = refl;
      same_mode =
          from_bits-spp (stack_supervisor m p) h'
          ∙ rw (stack_supervisor-bit m p 8 h np (omega arith)) (supervisor_mode p np);
      same_mstatus = λ i hi.
          rw
            (
              unstack_supervisor-bit (stack_supervisor m p) i h' hi,
              stack_supervisor-bit m p 5 h np (omega arith),
              stack_supervisor-bit m p i h np hi,
            )
            (ground arith);
    }

enter_machine-mret :
    (ctx : ExecContext) (cause tval : ℕ)
    → ctx.csr.mstatus < 2 ^ 64
    → MachineResumed ctx (mret (enter_machine ctx cause tval))
unfolding enter_machine mret
enter_machine-mret ctx cause tval h =
    let m = ctx.csr.mstatus in
    let p = ctx.priv_mode in
    let h' = stack_machine-lt m p h in
    record {
      same_pc = refl;
      same_mode =
          from_bits-mpp (stack_machine m p) h'
          ∙ rw (stack_machine-bit m p 12 h (omega arith), stack_machine-bit m p 11 h (omega arith))
              (machine_mode p);
      same_mstatus = λ i hi.
          rw
            (
              unstack_machine-bit (stack_machine m p) i h' hi,
              stack_machine-bit m p 7 h (omega arith),
              stack_machine-bit m p i h hi,
            )
            (ground arith);
    }

-- With a 64-bit `mstatus`, a delegated exception of user or supervisor mode, then SRET: the hart resumes.
pub take_exception-sret :
    (ctx : ExecContext) (cause tval : ℕ)
    → ctx.csr.mstatus < 2 ^ 64
    → ctx.priv_mode ≢ machine
    → has ctx.csr.medeleg (2 ^ bit_and cause 63) ≡ true
    → SupervisorResumed ctx (sret (take_exception ctx cause tval))
unfolding take_exception
take_exception-sret ctx cause tval h np delegated =
    rw (delegated, not_machine ctx.priv_mode np) (enter_supervisor-sret ctx cause tval h np)

-- With a 64-bit `mstatus`, an exception that is not delegated, or is of machine mode, then MRET: the hart resumes.
pub take_exception-mret :
    (ctx : ExecContext) (cause tval : ℕ)
    → ctx.csr.mstatus < 2 ^ 64
    → (has ctx.csr.medeleg (2 ^ bit_and cause 63) && not (is_machine ctx.priv_mode)) ≡ false
    → MachineResumed ctx (mret (take_exception ctx cause tval))
unfolding take_exception
take_exception-mret ctx cause tval h kept = rw kept (enter_machine-mret ctx cause tval h)

-- With a 64-bit `mstatus`, a delegated interrupt in user or supervisor mode, then SRET: the hart resumes.
pub take_interrupt-sret :
    (ctx : ExecContext) (irq_bit : ℕ)
    → ctx.csr.mstatus < 2 ^ 64
    → ctx.priv_mode ≢ machine
    → has ctx.csr.mideleg (2 ^ irq_bit) ≡ true
    → SupervisorResumed ctx (sret (take_interrupt ctx irq_bit))
unfolding take_interrupt
take_interrupt-sret ctx irq_bit h np delegated =
    rw (delegated, not_machine ctx.priv_mode np)
      (enter_supervisor-sret ctx (bit_or (2 ^ 63) irq_bit) 0 h np)

-- With a 64-bit `mstatus`, an interrupt that is not delegated, or comes in machine mode, then MRET: the hart resumes.
pub take_interrupt-mret :
    (ctx : ExecContext) (irq_bit : ℕ)
    → ctx.csr.mstatus < 2 ^ 64
    → (has ctx.csr.mideleg (2 ^ irq_bit) && not (is_machine ctx.priv_mode)) ≡ false
    → MachineResumed ctx (mret (take_interrupt ctx irq_bit))
unfolding take_interrupt
take_interrupt-mret ctx irq_bit h kept =
    rw kept (enter_machine-mret ctx (bit_or (2 ^ 63) irq_bit) 0 h)
