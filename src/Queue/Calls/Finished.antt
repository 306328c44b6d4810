-- ===== src/Queue/Calls/Finished.antt =====
-- Finished jobs, and the calls that come after.
use imagin.Queue.Claim.Frame.{claim_next-change}
use imagin.Prelude.{
  ℕ, ◌+◌, String, ◌≡◌, refl, ◌∙◌, inl, inr, false, Option, some, List, [], ◌∷◌, arith, ◌==◌,
  Bool-cases, sym, ap, ◌≢◌, true, ◌⊎◌,
}
use imagin.Prelude.Json.{Json}
use mathlib.Core.Path.{subst}
use imagin.Queue.Calls.Keys.{apply-IsUnique}
use imagin.Jobs.StateMachine.{State}
use imagin.Queue.{JobQueue, enqueue}
use imagin.Queue.Job.{QueuedJob, is_finished, is_claimable}
use imagin.Queue.Store.{find, update}
use imagin.Queue.Store.Laws.{KeepsId, find-update, find-put}
use imagin.Queue.Store.Unique.{IsUnique}
use imagin.Queue.Claim.{to_leased, stamp_leases, claim_next_with_lease, claim_next}
use imagin.Queue.Marks.{
  alter, mark_running, mark_succeeded, mark_failed, mark_retry_wait, set_prompt_id, renew_lease,
  cancel, to_running, to_succeeded, to_failed, to_retry_wait, with_prompt, renewed, to_cancelled,
}
use imagin.Queue.Calls.{
  Call, enqueues, claims, claims_with_lease, marks_running, marks_succeeded, marks_failed,
  marks_retry_wait, sets_prompt_id, renews_lease, cancels, apply, run,
}

-- What a client sees of how a job ended.
pub record Outcome : Type 0 where
  pub state : State
  pub result : Option Json
  pub error_code : Option String
  pub error_detail : Option String

abbrev pub outcome : QueuedJob → Outcome
outcome j = record {
  state = j.state;
  result = j.result;
  error_code = j.error_code;
  error_detail = j.error_detail;
}

-- The job under `id` still has the outcome of `j`.
abbrev pub Holds : ℕ → QueuedJob → List QueuedJob → Type 0
Holds id j jobs = (j' : QueuedJob) × (find id jobs ≡ some j') × (outcome j' ≡ outcome j)

-- The call does not replace the job and does not mark it as running.
abbrev pub Spares : ℕ → Call → Type 0
Spares id (enqueues job) = (job.id == id) ≡ false
Spares id (marks_running k) = (k == id) ≡ false
Spares id _ = Unit

alter-Holds :
    (id k : ℕ) (f : QueuedJob → QueuedJob) (q : JobQueue) (j : QueuedJob)
    → KeepsId f
    → outcome (f j) ≡ outcome j
    → find id q.jobs ≡ some j
    → Holds id j (alter k f q).jobs
alter-Holds id k f q j keeps same h = elim (Bool-cases (k == id)) [
  | inl e ↦ (f j, find-update id k f q.jobs keeps ∙ rw (e, h) refl, same)
  | inr e ↦ (j, find-update id k f q.jobs keeps ∙ rw (e, h) refl, refl)
]

some_eq : (x y : QueuedJob) → some x ≡ some y → x ≡ y
some_eq x y e = ground arith

finished-not_claimable :
    (now : ℕ) (kinds : Option (List String)) (j : QueuedJob)
    → is_finished j ≡ true
    → is_claimable kinds now j ≢ true
finished-not_claimable now kinds j h c = ground arith

claim-Holds :
    (now capacity : ℕ) (kinds : Option (List String)) (m id : ℕ) (jobs : List QueuedJob)
    (j : QueuedJob)
    → IsUnique jobs
    → find id jobs ≡ some j
    → is_finished j ≡ true
    → find id (claim_next now capacity kinds m jobs).jobs ≡ some j
claim-Holds now capacity kinds m id jobs j u f d =
    elim (claim_next-change now capacity kinds m jobs id u) [
      | inl same ↦ same ∙ f
      | inr (x, at, free, after) ↦ absurd (
          finished-not_claimable now kinds j d
            (subst (λ z. is_claimable kinds now z ≡ true) (some_eq x j (sym at ∙ f)) free))
    ]

stamp-Holds :
    (owner : String) (expires id : ℕ) (l jobs : List QueuedJob) (j : QueuedJob)
    → find id jobs ≡ some j
    → Holds id j (stamp_leases owner expires l jobs)
unfolding stamp_leases
stamp-Holds owner expires id [] jobs j f = (j, f, refl)
stamp-Holds owner expires id (x ∷ xs) jobs j f = elim (Bool-cases (x.id == id)) [
  | inl e ↦
      let leased = to_leased owner expires in
      let (j', at, same) =
        stamp-Holds owner expires id xs (update x.id leased jobs) (leased j)
          (find-update id x.id leased jobs (λ y. refl) ∙ rw (e, f) refl) in
      (j', at, same)
  | inr e ↦
      stamp-Holds owner expires id xs (update x.id (to_leased owner expires) jobs) j
        (find-update id x.id (to_leased owner expires) jobs (λ y. refl) ∙ rw (e, f) refl)
]

cancel_cases :
    (k : ℕ) (q : JobQueue)
    → (cancel k q ≡ (alter k to_cancelled q, true)) ⊎ (cancel k q ≡ (q, false))
unfolding cancel
cancel_cases k q = ground arith

cancel-Holds :
    (id k : ℕ) (q : JobQueue) (j : QueuedJob)
    → find id q.jobs ≡ some j
    → is_finished j ≡ true
    → Holds id j (cancel k q).0.jobs
cancel-Holds id k q j f d = elim (cancel_cases k q) [
  | inl e ↦
      subst (λ r. Holds id j r.0.jobs) (sym e)
        (alter-Holds id k to_cancelled q j (λ x. ground arith) (ground arith) f)
  | inr e ↦ subst (λ r. Holds id j r.0.jobs) (sym e) (j, f, refl)
]

apply-Holds :
    (now id : ℕ) (c : Call) (q : JobQueue) (j : QueuedJob)
    → IsUnique q.jobs
    → find id q.jobs ≡ some j
    → is_finished j ≡ true
    → Spares id c
    → Holds id j (apply now c q).jobs
unfolding apply enqueue mark_running mark_succeeded mark_failed mark_retry_wait set_prompt_id
    renew_lease cancel claim_next_with_lease
apply-Holds now id (enqueues job) q j u f d s = (j, find-put id job q.jobs ∙ rw (s, f) refl, refl)
apply-Holds now id (claims capacity kinds m) q j u f d s =
    (j, claim-Holds now capacity kinds m id q.jobs j u f d, refl)
apply-Holds now id (claims_with_lease stamp capacity owner lease kinds m) q j u f d s =
    stamp-Holds owner (stamp + lease) id _ _ j (claim-Holds now capacity kinds m id q.jobs j u f d)
apply-Holds now id (marks_running k) q j u f d s =
    (j, find-update id k to_running q.jobs (λ x. refl) ∙ rw (s, f) refl, refl)
apply-Holds now id (marks_succeeded k r) q j u f d s =
    alter-Holds id k (to_succeeded r) q j (λ x. ground arith) (ground arith) f
apply-Holds now id (marks_failed k code detail) q j u f d s =
    alter-Holds id k (to_failed code detail) q j (λ x. ground arith) (ground arith) f
apply-Holds now id (marks_retry_wait k code detail delay draw) q j u f d s =
    alter-Holds id k (to_retry_wait now code detail delay draw) q j (λ x. ground arith)
      (ground arith) f
apply-Holds now id (sets_prompt_id k p) q j u f d s =
    alter-Holds id k (with_prompt p) q j (λ x. refl) refl f
apply-Holds now id (renews_lease k lease) q j u f d s =
    alter-Holds id k (renewed (now + lease)) q j (λ x. ground arith) (ground arith) f
apply-Holds now id (cancels k) q j u f d s = cancel-Holds id k q j f d

-- Every call of the sequence spares the job.
abbrev pub AllSpare : ℕ → List (ℕ × Call) → Type 0
AllSpare id [] = Unit
AllSpare id ((now, c) ∷ rest) = Spares id c × AllSpare id rest

state-finished :
    (j k : QueuedJob) → outcome j ≡ outcome k → is_finished k ≡ true → is_finished j ≡ true
state-finished j k e h = rw (ap (λ (o : Outcome). o.state) e) h

Holds-trans :
    (id : ℕ) (j k : QueuedJob) (jobs : List QueuedJob)
    → outcome k ≡ outcome j
    → Holds id k jobs
    → Holds id j jobs
Holds-trans id j k jobs e (x, at, same) = (x, at, same ∙ e)

-- Where no two jobs share an identifier: once a job is cancelled, succeeded or failed, no sequence
-- of calls of the queue's methods changes its state, result or error, as long as none of them
-- enqueues a job with its identifier or marks it as running.
pub finished_kept :
    (id : ℕ) (calls : List (ℕ × Call)) (q : JobQueue) (j : QueuedJob)
    → IsUnique q.jobs
    → find id q.jobs ≡ some j
    → is_finished j ≡ true
    → AllSpare id calls
    → Holds id j (run calls q).jobs
unfolding run
finished_kept id [] q j u f d s = (j, f, refl)
finished_kept id ((now, c) ∷ rest) q j u f d s =
    let (k, at, same) = apply-Holds now id c q j u f d s.0 in
    Holds-trans id j k _ same (
      finished_kept id rest (apply now c q) k (apply-IsUnique now c q u) at
        (state-finished k j same d) s.1)
