-- ===== src/Jobs/Fairness.antt =====
-- backend/app/domain/jobs/fairness.py: `effective_priority` and `weighted_round_robin_order`.
pub mod Turns
mod Examples
use imagin.Prelude.{
  ℕ, zero, suc, ◌+◌, ◌-◌, ◌*◌, Bool, Option, none, some, List, [], ◌∷◌, ◌++◌, ltb, leb,
  if◌then◌else◌, any,
}
use imagin.Prelude.Table.{order_by}

-- In 1/120000000: the base with half a point for each minute of age, times in microseconds.
unfoldable pub effective_priority : ℕ → ℕ → ℕ → ℕ
effective_priority base_priority queued_at now = base_priority * 120000000 + (now - queued_at)

-- The dictionary of the queue depths, by user; users are numbers.
abbrev pub Depths : Type 0
Depths = List (ℕ × ℕ)

abbrev add_user : ℕ × Option (List ℕ) → Option (List ℕ)
add_user (user_id, none) = none
add_user (user_id, some order) = some (user_id ∷ order)

-- One round of the `while`: the users that it visits, and what remains.
unfoldable pub round : Depths → List ℕ × Depths
round [] = ([], [])
round ((user_id, depth) ∷ rest) =
    let (order, remaining) = round rest in
    if ltb 0 depth
    then (user_id ∷ order, (user_id, depth - 1) ∷ remaining)
    else (order, (user_id, depth) ∷ remaining)

-- `any(v > 0 for v in remaining.values())`
abbrev pub any_left : Depths → Bool
any_left = any (λ (user_id, depth). ltb 0 depth)

abbrev pub then_order : List ℕ → Option (List ℕ) → Option (List ℕ)
then_order visited none = none
then_order visited (some order) = some (visited ++ order)

-- The loop, for at most as many rounds; `none` where these are not enough.
unfoldable pub visit : ℕ → Depths → Option (List ℕ)
visit zero d = if any_left d then none else some []
visit (suc rounds) d =
    let rest = visit rounds (round d).1 in
    if any_left d then then_order (round d).0 rest else some []

-- `sorted(remaining)`: the users in their order, which no round changes.
abbrev pub by_user : Depths → Depths
by_user = order_by (λ (a, m) (b, n). leb a b)

unfoldable pub weighted_round_robin_order : ℕ → Depths → Option (List ℕ)
weighted_round_robin_order rounds d = visit rounds (by_user d)
