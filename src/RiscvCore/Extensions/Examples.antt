-- ===== src/RiscvCore/Extensions/Examples.antt =====
-- A division of the least dividend.
use vpod.Prelude.{◌-◌, ◌+◌, ◌-◌, ◌%◌, ◌^◌, ◌<◌, ◌≡◌, ◌≢◌, ◌⊎◌, arith}
use vpod.RiscvCore.Extensions.{div, rem, divu, remu, mul}
use vpod.RiscvCore.Extensions.Division.{div-rem}

-- The least dividend by -1: the quotient wraps, the remainder is 0.
div-rem_example :
    ((mul (div (2 ^ 63) (2 ^ 64 - 1)) (2 ^ 64 - 1) + rem (2 ^ 63) (2 ^ 64 - 1)) % 2 ^ 64 ≡ 2 ^ 63)
    × ((mul (divu (2 ^ 63) (2 ^ 64 - 1)) (2 ^ 64 - 1) + remu (2 ^ 63) (2 ^ 64 - 1)) % 2 ^ 64
        ≡ 2 ^ 63)
    × ((2 ^ 64 - 1 ≡ 0) ⊎ (remu (2 ^ 63) (2 ^ 64 - 1) < 2 ^ 64 - 1))
    × ((2 ^ 64 - 1 ≢ 0)
        ⊎ ((div (2 ^ 63) (2 ^ 64 - 1) ≡ 2 ^ 64 - 1) × (divu (2 ^ 63) (2 ^ 64 - 1) ≡ 2 ^ 64 - 1)))
div-rem_example = div-rem (2 ^ 63) (2 ^ 64 - 1) (omega arith) (omega arith)
