-- ===== src/RiscvCore/FetchTlb/Examples.antt =====
-- A table with two fills of one slot.
use vpod.Prelude.{◌≡◌, refl, none, some, [], ◌∷◌, arith}
use vpod.RiscvCore.FetchTlb.{new, lookup, insert, flush}
use vpod.RiscvCore.FetchTlb.Sound.{fill, clear, run, last_fill, run_sound}

-- Pages 1 and 257 share a slot.
filled :
    lookup (run new (fill 1 7 9 ∷ clear ∷ fill 1 8 9 ∷ fill 257 5 9 ∷ fill 2 6 9 ∷ [])) 257 9
    ≡ some 5
unfolding run lookup insert flush new
filled = refl

run_sound_example :
    last_fill (λ _ _. none) (fill 1 7 9 ∷ clear ∷ fill 1 8 9 ∷ fill 257 5 9 ∷ fill 2 6 9 ∷ []) 257 9
    ≡ some 5
run_sound_example =
    run_sound (fill 1 7 9 ∷ clear ∷ fill 1 8 9 ∷ fill 257 5 9 ∷ fill 2 6 9 ∷ []) 257 9 5
      (omega arith) filled
