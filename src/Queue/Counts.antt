-- ===== src/Queue/Counts.antt =====
-- The methods that only read: `list_active`, `count_active`, the backlog counts,
-- `find_by_idempotency_key` and `queue_rank`.
pub mod Rank
use imagin.Prelude.{
  ℕ, ◌+◌, String, Bool, false, ◌&&◌, Option, none, some, List, [], ◌∷◌, str_eq, ◌==◌, if◌then◌else◌,
  filter, count,
}
use imagin.Queue.{JobQueue}
use imagin.Queue.Job.{QueuedJob, is_active, is_backlog, of_kinds}
use imagin.Queue.Store.{find}
use imagin.Queue.Order.{sort}

unfoldable pub list_active : JobQueue → List QueuedJob
list_active q = filter is_active q.jobs

unfoldable pub count_active : Option (List String) → JobQueue → ℕ
count_active kinds q = count (λ j. is_active j && of_kinds kinds j) q.jobs

unfoldable pub count_user_backlog : ℕ → JobQueue → ℕ
count_user_backlog user_id q = count (λ j. j.user_id == user_id && is_backlog j) q.jobs

-- `j.conversation_id == conversation_id`
abbrev pub in_conversation : ℕ → Option ℕ → Bool
in_conversation id none = false
in_conversation id (some c) = c == id

unfoldable pub count_conversation_backlog : ℕ → JobQueue → ℕ
count_conversation_backlog id q =
    count (λ j. in_conversation id j.conversation_id && is_backlog j) q.jobs

unfoldable pub count_global_backlog : JobQueue → ℕ
count_global_backlog q = count is_backlog q.jobs

unfoldable pub count_backlog_for_kinds : Option (List String) → JobQueue → ℕ
count_backlog_for_kinds kinds q = count (λ j. is_backlog j && of_kinds kinds j) q.jobs

abbrev pub has_key : ℕ → String → String → QueuedJob → Bool
has_key user_id key kind j =
    j.user_id == user_id && str_eq j.idempotency_key key && str_eq j.kind kind

unfoldable pub first : (QueuedJob → Bool) → List QueuedJob → Option QueuedJob
first p [] = none
first p (j ∷ js) = if p j then some j else first p js

unfoldable pub find_by_idempotency_key : ℕ → String → String → JobQueue → Option QueuedJob
find_by_idempotency_key user_id key kind q = first (has_key user_id key kind) q.jobs

-- `for idx, j in enumerate(candidates)`
unfoldable pub index_from : ℕ → ℕ → List QueuedJob → Option ℕ
index_from i id [] = none
index_from i id (j ∷ js) = if j.id == id then some i else index_from (i + 1) id js

abbrev pub rank_of : Option QueuedJob → ℕ → Option (List String) → JobQueue → Option ℕ
rank_of none id kinds q = none
rank_of (some job) id kinds q =
    if is_backlog job
    then index_from 0 id (sort (filter (λ j. is_backlog j && of_kinds kinds j) q.jobs))
    else none

unfoldable pub queue_rank : ℕ → Option (List String) → JobQueue → Option ℕ
queue_rank id kinds q = rank_of (find id q.jobs) id kinds q
