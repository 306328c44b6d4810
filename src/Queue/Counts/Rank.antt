-- ===== src/Queue/Counts/Rank.antt =====
-- `queue_rank`, and the order of the claim.
use imagin.Prelude.{
  ℕ, suc, ◌+◌, ◌≤◌, String, ◌≡◌, refl, ap, ◌∙◌, inl, inr, Bool, true, false, not, ◌&&◌, Option,
  some, List, [], ◌∷◌, arith, ◌==◌, Bool-cases, filter, count, All,
}
use imagin.Queue.{JobQueue}
use imagin.Queue.Job.{QueuedJob, is_backlog, of_kinds}
use imagin.Queue.Store.{find}
use imagin.Queue.Store.Unique.{IsUnique, filter-IsUnique, find-filter}
use imagin.Queue.Order.{precedes, sort}
use imagin.Queue.Order.Laws.{IsSorted, sort-IsSorted, find-sort, count-sort, precedes_refl}
use imagin.Queue.Claim.Left.{All-at}
use imagin.Queue.Counts.{index_from, queue_rank}
use mathlib.Core.Path.{subst}

-- Comes strictly before `job` in the order of the claim.
abbrev pub ahead_of : QueuedJob → QueuedJob → Bool
ahead_of job j = not (precedes job j)

-- Comes no later than `job`; the job itself is one of them.
abbrev pub not_after : QueuedJob → QueuedJob → Bool
not_after job j = precedes j job

head_is :
    (id : ℕ) (x : QueuedJob) (xs : List QueuedJob) (job : QueuedJob)
    → (x.id == id) ≡ true
    → find id (x ∷ xs) ≡ some job
    → x ≡ job
unfolding find
head_is id x xs job e h = ground arith

none_ahead :
    (job : QueuedJob) (l : List QueuedJob)
    → All (λ y. precedes job y ≡ true) l
    → count (ahead_of job) l ≡ 0
none_ahead job [] h = refl
none_ahead job (y ∷ ys) h = rw h.0 (none_ahead job ys h.1)

-- The position of a job in a sorted list, between two counts.
abbrev Place : ℕ → QueuedJob → List QueuedJob → Type 0
Place id job l =
    (n : ℕ) × ((i : ℕ) → index_from i id l ≡ some (i + n))
    × (count (ahead_of job) l ≤ n)
    × (n + 1 ≤ count (not_after job) l)

Place-head :
    (id : ℕ) (job : QueuedJob) (xs : List QueuedJob)
    → (job.id == id) ≡ true
    → All (λ y. precedes job y ≡ true) xs
    → Place id job (job ∷ xs)
unfolding index_from
Place-head id job xs e h = (
  0,
  λ i. rw e (ap some (omega arith)),
  rw (precedes_refl job) (omega (arith, none_ahead job xs h)),
  rw (precedes_refl job) (omega arith),
)

Place-tail :
    (id : ℕ) (job x : QueuedJob) (xs : List QueuedJob)
    → (x.id == id) ≡ false
    → precedes x job ≡ true
    → Place id job xs
    → Place id job (x ∷ xs)
unfolding index_from
Place-tail id job x xs e h (n, at, low, high) =
    (suc n, λ i. rw e (at (i + 1) ∙ ap some (omega arith)), ground arith, rw h (omega arith))

place :
    (id : ℕ) (job : QueuedJob) (l : List QueuedJob)
    → IsSorted l
    → find id l ≡ some job
    → Place id job l
unfolding find
place id job [] s h = absurd (ground arith)
place id job (x ∷ xs) s h = elim (Bool-cases (x.id == id)) [
  | inl e ↦
      let p = head_is id x xs job e h in
      rw p
        (Place-head id job xs (rw (← p) e) (subst (λ z. All (λ y. precedes z y ≡ true) xs) p s.0))
  | inr e ↦
      Place-tail id job x xs e (All-at (λ y. precedes x y ≡ true) id xs job (ground arith) s.0)
        (place id job xs s.1 (ground arith))
]

abbrev pub waiting : Option (List String) → QueuedJob → Bool
waiting kinds j = is_backlog j && of_kinds kinds j

-- For a waiting job of the kinds, where no two jobs share an identifier, `queue_rank` gives a
-- number: at least as many waiting jobs of the kinds come strictly before it in the order of the
-- claim, and with the job itself it is at most the number of those that come no later.
pub queue_rank_bounds :
    (id : ℕ) (kinds : Option (List String)) (q : JobQueue) (job : QueuedJob)
    → IsUnique q.jobs
    → find id q.jobs ≡ some job
    → waiting kinds job ≡ true
    → (n : ℕ) × (queue_rank id kinds q ≡ some n)
      × (count (ahead_of job) (filter (waiting kinds) q.jobs) ≤ n)
      × (n + 1 ≤ count (not_after job) (filter (waiting kinds) q.jobs))
unfolding queue_rank
queue_rank_bounds id kinds q job u f w =
    let l = filter (waiting kinds) q.jobs in
    let (n, at, low, high) = place id job (sort l) (sort-IsSorted l) (
      find-sort id l (filter-IsUnique (waiting kinds) q.jobs u)
      ∙ find-filter id (waiting kinds) q.jobs job f w) in
    (
      n,
      rw f (ground (arith, at 0)),
      omega (arith, count-sort (ahead_of job) l),
      omega (arith, count-sort (not_after job) l),
    )
