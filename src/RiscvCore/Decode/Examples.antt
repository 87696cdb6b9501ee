-- ===== src/RiscvCore/Decode/Examples.antt =====
-- Instruction words with negative immediates.
use vpod.Prelude.{ℕ, ◌-◌, ◌^◌, ◌≡◌, arith}
use vpod.RiscvCore.Decode.{imm_b, imm_j, imm_s}
use vpod.RiscvCore.Decode.Immediates.{imm_b_lem, imm_j_lem, imm_s_lem}

-- `sd ra, -8(sp)`
abbrev store_word : ℕ
store_word = 0xfe113c23

-- `bne a0, a1, -4`
abbrev branch_word : ℕ
branch_word = 0xfeb51ee3

-- `jal ra, -16`
abbrev jump_word : ℕ
jump_word = 0xff1ff0ef

branches_back : imm_b branch_word ≡ 2 ^ 64 - 4
branches_back = imm_b_lem branch_word (omega arith)

jumps_back : imm_j jump_word ≡ 2 ^ 64 - 16
jumps_back = imm_j_lem jump_word (omega arith)

stores_below : imm_s store_word ≡ 2 ^ 64 - 8
stores_below = imm_s_lem store_word (omega arith)
