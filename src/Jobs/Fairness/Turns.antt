-- ===== src/Jobs/Fairness/Turns.antt =====
-- The rounds of `weighted_round_robin_order`, without the loop.
use imagin.Prelude.{
  ℕ, zero, suc, ◌+◌, ◌-◌, ◌≤◌, ◌≡◌, refl, true, false, some, List, [], ◌∷◌, ◌++◌, ltb,
  if◌then◌else◌, arith, max, Bool-cases, inl, inr, ap, sym, count,
}
use imagin.Jobs.Fairness.{Depths, round, any_left, visit, by_user, weighted_round_robin_order}

-- The largest depth.
abbrev pub deepest : Depths → ℕ
deepest [] = 0
deepest ((u, n) ∷ rest) = max n (deepest rest)

-- The users with more jobs than the turns that they had.
abbrev pub with_more : ℕ → Depths → List ℕ
with_more turns [] = []
with_more turns ((u, n) ∷ rest) =
    if ltb turns n then u ∷ with_more turns rest else with_more turns rest

-- From a turn on, so many turns.
abbrev pub turns_from : ℕ → ℕ → Depths → List ℕ
turns_from first zero d = []
turns_from first (suc count) d = with_more first d ++ turns_from (first + 1) count d

abbrev lowered : ℕ → Depths → Depths
lowered turns [] = []
lowered turns ((u, n) ∷ rest) = (u, n - turns) ∷ lowered turns rest

round-lowered :
    (turns : ℕ) (d : Depths) → round (lowered turns d) ≡ (with_more turns d, lowered (turns + 1) d)
unfolding round
round-lowered turns [] = refl
round-lowered turns ((u, n) ∷ rest) =
    rw (round-lowered turns rest) (elim (Bool-cases (ltb turns n)) [
      | inl e ↦
          let more : ltb 0 (n - turns) ≡ true = ground arith in
          let less : n - turns - 1 ≡ n - (turns + 1) = omega arith in rw (e, more, less) refl
      | inr e ↦
          let more : ltb 0 (n - turns) ≡ false = ground arith in
          let less : n - turns ≡ n - (turns + 1) = ground arith in rw (e, more, less) refl
    ])

any_left-none :
    (turns : ℕ) (d : Depths) → any_left (lowered turns d) ≡ false → with_more turns d ≡ []
any_left-none turns [] h = refl
any_left-none turns ((u, n) ∷ rest) h = ground (arith, any_left-none turns rest)

none_left : (turns : ℕ) (d : Depths) → deepest d ≤ turns → any_left (lowered turns d) ≡ false
none_left turns [] h = refl
none_left turns ((u, n) ∷ rest) h = ground (arith, none_left turns rest)

exhausted : (turns : ℕ) (d : Depths) → any_left (lowered turns d) ≡ false → deepest d ≤ turns
exhausted turns [] h = omega arith
exhausted turns ((u, n) ∷ rest) h = ground (arith, exhausted turns rest)

no_turns : (first count : ℕ) (d : Depths) → deepest d ≤ first → turns_from first count d ≡ []
no_turns first zero d h = refl
no_turns first (suc count) d h =
    rw (any_left-none first d (none_left first d h), no_turns (first + 1) count d (omega arith))
      refl

visit-lowered :
    (first rounds : ℕ) (d : Depths)
    → deepest d ≤ first + rounds
    → visit rounds (lowered first d) ≡ some (turns_from first rounds d)
unfolding visit
visit-lowered first zero d h = rw (none_left first d (omega arith)) refl
visit-lowered first (suc rounds) d h = elim (Bool-cases (any_left (lowered first d))) [
  | inl e ↦
      rw (e, round-lowered first d) (rw (visit-lowered (first + 1) rounds d (omega arith)) refl)
  | inr e ↦ rw e (ap some (sym (no_turns first (suc rounds) d (exhausted first d e))))
]

lowered-zero : (d : Depths) → lowered 0 d ≡ d
lowered-zero [] = refl
lowered-zero ((u, n) ∷ rest) =
    let same : n - 0 ≡ n = omega arith in rw (lowered-zero rest, same) refl

-- Given as many rounds as the deepest queue has jobs, or more, the loop ends, and the order is: each
-- user with a job, in the order of the users, then each with a second job, and so on.
pub weighted_round_robin_order_turns :
    (rounds : ℕ) (d : Depths)
    → deepest (by_user d) ≤ rounds
    → weighted_round_robin_order rounds d ≡ some (turns_from 0 rounds (by_user d))
unfolding weighted_round_robin_order
weighted_round_robin_order_turns rounds d h =
    let ends = visit-lowered 0 rounds (by_user d) (omega arith) in
    rw (lowered-zero (by_user d)) at ends
