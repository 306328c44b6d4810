-- ===== src/Jobs/Fairness/Examples.antt =====
-- Tests of the fair order, and its theorem at a concrete input.
use imagin.Prelude.{[], ◌∷◌, some, ◌≡◌, refl, arith}
use imagin.Prelude.Table.{order_by}
use imagin.Jobs.Fairness.{
  Depths, weighted_round_robin_order, effective_priority, by_user, visit, round,
}
use imagin.Jobs.Fairness.Turns.{turns_from, weighted_round_robin_order_turns}

abbrev depths : Depths
depths = (9, 1) ∷ (4, 3) ∷ (7, 2) ∷ []

interleaves : weighted_round_robin_order 3 depths ≡ some (4 ∷ 7 ∷ 9 ∷ 4 ∷ 7 ∷ 4 ∷ [])
unfolding weighted_round_robin_order visit round order_by
interleaves = refl

-- Two minutes make one point.
ages : effective_priority 9 0 120000000 ≡ effective_priority 10 120000000 120000000
unfolding effective_priority
ages = refl

weighted_round_robin_order_turns_example :
    weighted_round_robin_order 3 depths ≡ some (turns_from 0 3 (by_user depths))
unfolding order_by
weighted_round_robin_order_turns_example = weighted_round_robin_order_turns 3 depths (omega arith)
