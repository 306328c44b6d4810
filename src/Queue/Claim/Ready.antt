-- ===== src/Queue/Claim/Ready.antt =====
-- What the loop knows of the candidates that are still to come.
use imagin.Prelude.{
  ℕ, String, ◌≡◌, refl, inl, inr, true, ◌&&◌, Option, none, List, [], ◌∷◌, arith, ltb, leb,
  Bool-cases, All,
}
use imagin.Queue.Job.{QueuedJob, is_claimable}
use imagin.Queue.Store.{find, update}
use imagin.Queue.Store.Laws.{find-update}
use imagin.Queue.Store.Unique.{
  IsUnique, IsStored, IsStored-self, filter-IsUnique, All-filter, filter-All,
}
use imagin.Queue.Order.Laws.{sort-All, sort-IsUnique}
use imagin.Queue.Claim.{Claiming, count_of, to_dispatched, claim_one, candidates}

-- They are in the store as they are in the list, and have distinct identifiers.
pub record IsReady (jobs todo : List QueuedJob) : Type 0 where
  pub stored : IsStored jobs todo
  pub unique : IsUnique todo

pub stored-update :
    (id : ℕ) (f : QueuedJob → QueuedJob) (jobs todo : List QueuedJob)
    → ((j : QueuedJob) → (f j).id ≡ j.id)
    → find id todo ≡ none
    → IsStored jobs todo
    → IsStored (update id f jobs) todo
unfolding find
stored-update id f jobs [] keeps n h = tt
stored-update id f jobs (k ∷ ks) keeps n h = (
  ground (arith, find-update k.id id f jobs keeps),
  stored-update id f jobs ks keeps (ground arith) h.1,
)

pub claim_one-IsReady :
    (max_active : ℕ) (j : QueuedJob) (todo : List QueuedJob) (s : Claiming)
    → IsReady s.jobs (j ∷ todo)
    → IsReady (claim_one max_active j s).jobs todo
unfolding claim_one
claim_one-IsReady max_active j todo s r =
    let after = stored-update j.id to_dispatched s.jobs todo (λ k. refl) r.unique.0 r.stored.1 in
    elim (Bool-cases (ltb 0 max_active && leb max_active (count_of j.user_id s.counts))) [
      | inl e ↦ rw e (record { stored = r.stored.1; unique = r.unique.1 })
      | inr e ↦ rw e (record { stored = after; unique = r.unique.1 })
    ]

pub candidates-IsReady :
    (now : ℕ) (kinds : Option (List String)) (jobs : List QueuedJob)
    → IsUnique jobs
    → IsReady jobs (candidates now kinds jobs)
candidates-IsReady now kinds jobs u = record {
  stored = sort-All _ _ (All-filter _ (is_claimable kinds now) jobs (IsStored-self jobs u));
  unique = sort-IsUnique _ (filter-IsUnique (is_claimable kinds now) jobs u);
}

-- Every candidate passes the test of the claim.
pub candidates_claimable :
    (now : ℕ) (kinds : Option (List String)) (jobs : List QueuedJob)
    → All (λ j. is_claimable kinds now j ≡ true) (candidates now kinds jobs)
candidates_claimable now kinds jobs = sort-All _ _ (filter-All (is_claimable kinds now) jobs)
