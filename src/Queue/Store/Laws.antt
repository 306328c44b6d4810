-- ===== src/Queue/Store/Laws.antt =====
-- Reading after a change, and how a change moves the counts.
use imagin.Prelude.{
  ℕ, ◌+◌, ◌≡◌, refl, Bool, true, false, Option, none, some, List, [], ◌∷◌, ◌==◌, if◌then◌else◌,
  count, arith,
}
use imagin.Queue.Job.{QueuedJob}
use imagin.Queue.Store.{find, update, put}

abbrev pub KeepsId : (QueuedJob → QueuedJob) → Type 0
KeepsId f = (j : QueuedJob) → (f j).id ≡ j.id

abbrev pub one_if : Bool → ℕ
one_if true = 1
one_if false = 0

abbrev pub changed : (QueuedJob → QueuedJob) → Option QueuedJob → Option QueuedJob
changed f none = none
changed f (some j) = some (f j)

pub find-id : (id : ℕ) (l : List QueuedJob) {j : QueuedJob} → find id l ≡ some j → j.id ≡ id
unfolding find
find-id id [] h = absurd (ground arith)
find-id id (x ∷ xs) {j} h = ground (arith, find-id id xs {j = j})

pub find-update :
    (k id : ℕ) (f : QueuedJob → QueuedJob) (l : List QueuedJob)
    → KeepsId f
    → find k (update id f l) ≡ (if id == k then changed f (find k l) else find k l)
unfolding find update
find-update k id f [] keeps = ground arith
find-update k id f (x ∷ xs) keeps = ground (arith, keeps x, find-update k id f xs keeps)

pub find-put :
    (k : ℕ) (job : QueuedJob) (l : List QueuedJob)
    → find k (put job l) ≡ (if job.id == k then some job else find k l)
unfolding find put
find-put k job [] = refl
find-put k job (x ∷ xs) = ground (arith, find-put k job xs)

pub update_absent :
    (id : ℕ) (f : QueuedJob → QueuedJob) (l : List QueuedJob) → find id l ≡ none → update id f l ≡ l
unfolding find update
update_absent id f [] h = refl
update_absent id f (x ∷ xs) h = ground (arith, update_absent id f xs)

pub count-update :
    (p : QueuedJob → Bool) (id : ℕ) (f : QueuedJob → QueuedJob) (l : List QueuedJob) (j : QueuedJob)
    → find id l ≡ some j
    → count p (update id f l) + one_if (p j) ≡ count p l + one_if (p (f j))
unfolding find update
count-update p id f [] j h = absurd (ground arith)
count-update p id f (x ∷ xs) j h = ground (arith, count-update p id f xs j)

pub count-put :
    (p : QueuedJob → Bool) (job : QueuedJob) (l : List QueuedJob)
    → find job.id l ≡ none
    → count p (put job l) ≡ count p l + one_if (p job)
unfolding find put
count-put p job [] h = ground arith
count-put p job (x ∷ xs) h = ground (arith, count-put p job xs)
