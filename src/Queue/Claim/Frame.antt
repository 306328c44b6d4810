-- ===== src/Queue/Claim/Frame.antt =====
-- What a claim leaves alone.
use imagin.Prelude.{
  ℕ, String, ◌≡◌, refl, sym, ◌∙◌, ◌⊎◌, inl, inr, Bool, true, false, Option, none, some, List, [],
  ◌∷◌, arith, leb, ◌==◌, Bool-cases, length, filter,
}
use imagin.Queue.Job.{QueuedJob, is_claimable}
use imagin.Queue.Store.{find}
use imagin.Queue.Store.Laws.{find-update, find-id}
use imagin.Queue.Store.Unique.{IsUnique, filter-IsUnique}
use imagin.Queue.Order.Laws.{find-sort}
use imagin.Queue.Claim.{Claiming, to_dispatched, claim_one, claim_loop, candidates, claim_next}
use imagin.Queue.Claim.Ready.{IsReady, claim_one-IsReady, candidates-IsReady, candidates_claimable}
use imagin.Queue.Claim.Left.{loop-other, All-at}

-- The job of `todo` under `k`, if it was taken.
abbrev pub Change : ℕ → List QueuedJob → List QueuedJob → List QueuedJob → Type 0
Change k todo before after =
    (find k after ≡ find k before)
    ⊎ ((j : QueuedJob) × (find k todo ≡ some j) × (find k after ≡ some (to_dispatched j)))

one-other :
    (m k : ℕ) (j : QueuedJob) (s : Claiming)
    → (j.id == k) ≡ false
    → find k (claim_one m j s).jobs ≡ find k s.jobs
unfolding claim_one
one-other m k j s e = ground (arith, find-update k j.id to_dispatched s.jobs (λ x. refl))

one_self :
    (m k : ℕ) (j : QueuedJob) (s : Claiming)
    → (j.id == k) ≡ true
    → find j.id s.jobs ≡ some j
    → (find k (claim_one m j s).jobs ≡ find k s.jobs)
      ⊎ (find k (claim_one m j s).jobs ≡ some (to_dispatched j))
unfolding claim_one
one_self m k j s e h = ground (arith, find-update k j.id to_dispatched s.jobs (λ x. refl))

head-Change :
    (room m k : ℕ) (j : QueuedJob) (js : List QueuedJob) (s : Claiming)
    → (j.id == k) ≡ true
    → find j.id js ≡ none
    → (find k (claim_one m j s).jobs ≡ find k s.jobs)
      ⊎ (find k (claim_one m j s).jobs ≡ some (to_dispatched j))
    → Change k (j ∷ js) s.jobs (claim_loop room m js (claim_one m j s)).jobs
unfolding find
head-Change room m k j js s e n (inl h) =
    inl (ground (arith, loop-other room m k js (claim_one m j s)))
head-Change room m k j js s e n (inr h) =
    inr (j, ground arith, ground (arith, loop-other room m k js (claim_one m j s)))

tail-Change :
    (k : ℕ) (j : QueuedJob) (js before between after : List QueuedJob)
    → (j.id == k) ≡ false
    → find k between ≡ find k before
    → Change k js between after
    → Change k (j ∷ js) before after
unfolding find
tail-Change k j js before between after e h (inl c) = inl (c ∙ h)
tail-Change k j js before between after e h (inr (x, p, q)) = inr (x, ground arith, q)

loop-Change :
    (room m k : ℕ) (todo : List QueuedJob) (s : Claiming)
    → IsReady s.jobs todo
    → Change k todo s.jobs (claim_loop room m todo s).jobs
unfolding claim_loop
loop-Change room m k [] s r = inl refl
loop-Change room m k (j ∷ js) s r = elim (Bool-cases (leb room (length s.claimed))) [
  | inl e ↦ rw e (inl refl)
  | inr e ↦ rw e (elim (Bool-cases (j.id == k)) [
    | inl same ↦ head-Change room m k j js s same r.unique.0 (one_self m k j s same r.stored.0)
    | inr other ↦
        tail-Change k j js s.jobs (claim_one m j s).jobs _ other (one-other m k j s other)
          (loop-Change room m k js (claim_one m j s) (claim_one-IsReady m j js s r))
  ])
]

find-filter-some :
    (k : ℕ) (p : QueuedJob → Bool) (l : List QueuedJob) (j : QueuedJob)
    → IsUnique l
    → find k (filter p l) ≡ some j
    → find k l ≡ some j
unfolding find
find-filter-some k p [] j u h = h
find-filter-some k p (x ∷ xs) j u h =
    ground (arith, find-filter-some k p xs j u.1, find-id k xs {j = j})

origin :
    (now k : ℕ) (kinds : Option (List String)) (jobs after : List QueuedJob)
    → IsUnique jobs
    → Change k (candidates now kinds jobs) jobs after
    → (find k after ≡ find k jobs)
      ⊎ ((j : QueuedJob) × (find k jobs ≡ some j)
          × (is_claimable kinds now j ≡ true)
          × (find k after ≡ some (to_dispatched j)))
origin now k kinds jobs after u (inl h) = inl h
origin now k kinds jobs after u (inr (j, p, q)) = inr (
  j,
  find-filter-some k (is_claimable kinds now) jobs j u
      (sym (find-sort k _ (filter-IsUnique (is_claimable kinds now) jobs u)) ∙ p),
  All-at (λ x. is_claimable kinds now x ≡ true) k (candidates now kinds jobs) j p
      (candidates_claimable now kinds jobs),
  q,
)

-- Where no two jobs share an identifier, under each identifier a claim leaves what was there, or it
-- was a claimable job and only its state has changed, to dispatched.
pub claim_next-change :
    (now room : ℕ) (kinds : Option (List String)) (m : ℕ) (jobs : List QueuedJob) (k : ℕ)
    → IsUnique jobs
    → (find k (claim_next now room kinds m jobs).jobs ≡ find k jobs)
      ⊎ ((j : QueuedJob) × (find k jobs ≡ some j)
          × (is_claimable kinds now j ≡ true)
          × (find k (claim_next now room kinds m jobs).jobs ≡ some (to_dispatched j)))
unfolding claim_next
claim_next-change now room kinds m jobs k u =
    origin now k kinds jobs _ u
      (loop-Change room m k (candidates now kinds jobs) _ (candidates-IsReady now kinds jobs u))
