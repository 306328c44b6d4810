-- ===== src/Queue/Order.antt =====
-- `sorted(…, key=lambda j: (-j.effective_priority, j.queued_at))`: Python's sort is stable, and is
-- written as an insertion sort.
pub mod Laws
use imagin.Prelude.{Bool, List, [], ◌∷◌, ltb, leb, ◌==◌, ◌&&◌, ◌||◌, if◌then◌else◌}
use imagin.Queue.Job.{QueuedJob}

-- The key of `a` is at most that of `b`: a higher priority, or the same one and queued no later.
unfoldable pub precedes : QueuedJob → QueuedJob → Bool
precedes a b =
    ltb b.effective_priority a.effective_priority
    || (a.effective_priority == b.effective_priority && leb a.queued_at b.queued_at)

-- Before the first element that it precedes, so that equal keys keep their order.
unfoldable pub insert : QueuedJob → List QueuedJob → List QueuedJob
insert x [] = x ∷ []
insert x (y ∷ ys) = if precedes x y then x ∷ y ∷ ys else y ∷ insert x ys

unfoldable pub sort : List QueuedJob → List QueuedJob
unfolding insert
sort [] = []
sort (x ∷ xs) = insert x (sort xs)
