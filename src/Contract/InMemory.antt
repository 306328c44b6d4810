-- ===== src/Contract/InMemory.antt =====
-- `InMemoryJobQueue` and the contract.
use mathlib.Core.Path.{subst}
use imagin.Prelude.{
  ℕ, ◌≡◌, refl, ap, inl, inr, Option, none, some, ◌==◌, Bool-cases, ◌∙◌, Bool, true, false, arith,
  if◌then◌else◌, ==_iff,
}
use imagin.Queue.{JobQueue}
use imagin.Queue.Job.{QueuedJob}
use imagin.Queue.Store.{find}
use imagin.Queue.Store.Laws.{find-update, changed, KeepsId}
use imagin.Queue.Marks.{
  alter, mark_succeeded, mark_failed, mark_retry_wait, cancel, to_succeeded, to_failed,
  to_retry_wait, to_cancelled, can_cancel,
}
use imagin.Contract.{View, Settlement, succeeds, fails, retries, cancels, settle, settle_at, Queue}

abbrev pub view : QueuedJob → View
view j = record {
  state = j.state;
  current_attempt = j.current_attempt;
  error_code = j.error_code;
  error_detail = j.error_detail;
}

abbrev view_of : Option QueuedJob → Option View
view_of none = none
view_of (some j) = some (view j)

abbrev pub look : ℕ → JobQueue → Option View
look id q = view_of (find id q.jobs)

-- The method of the settlement, at the time `now`.
abbrev pub call : ℕ → ℕ → ℕ → Settlement → JobQueue → JobQueue
call now clock id (succeeds result) q = mark_succeeded id result q
call now clock id (fails code detail) q = mark_failed id code detail q
call now clock id (retries code detail delay draw) q =
    mark_retry_wait clock id code detail delay draw q
call now clock id cancels q = (cancel id q).0

changed-view :
    (b : Bool) (f : QueuedJob → QueuedJob) (s : Settlement) (o : Option QueuedJob)
    → ((j : QueuedJob) → view (f j) ≡ settle s (view j))
    → view_of (if b then changed f o else o) ≡ settle_at b s (view_of o)
changed-view true f s none h = refl
changed-view true f s (some j) h = ap some (h j)
changed-view false f s none h = refl
changed-view false f s (some j) h = refl

alter-look :
    (k id : ℕ) (f : QueuedJob → QueuedJob) (s : Settlement) (q : JobQueue)
    → KeepsId f
    → ((j : QueuedJob) → view (f j) ≡ settle s (view j))
    → look k (alter id f q) ≡ settle_at (id == k) s (look k q)
alter-look k id f s q keeps h =
    ap view_of (find-update k id f q.jobs keeps) ∙ changed-view (id == k) f s (find k q.jobs) h

closed :
    (s : Settlement) (o : Option QueuedJob) (b : Bool)
    → can_cancel o ≡ false
    → view_of o ≡ settle_at b s (view_of o)
unfolding settle
closed s none b h = refl
closed s (some j) true h = ground arith
closed s (some j) false h = refl

kept : (s : Settlement) (o : Option View) → o ≡ settle_at false s o
kept s none = refl
kept s (some v) = refl

-- Where `cancel` does nothing, the contract has nothing to do.
refused :
    (s : Settlement) (id k : ℕ) (q : JobQueue)
    → can_cancel (find id q.jobs) ≡ false
    → look k q ≡ settle_at (id == k) s (look k q)
unfolding settle
refused s id k q h = elim (Bool-cases (id == k)) [
  | inl e ↦
      subst (λ n. look n q ≡ settle_at (id == n) s (look n q)) ((==_iff id k).0 e)
        (closed s (find id q.jobs) (id == id) h)
  | inr e ↦ rw e (kept s (look k q))
]

cancel-look :
    (k id : ℕ) (q : JobQueue) → look k (cancel id q).0 ≡ settle_at (id == k) cancels (look k q)
unfolding cancel settle
cancel-look k id q = elim (Bool-cases (can_cancel (find id q.jobs))) [
  | inl e ↦ rw e (alter-look k id to_cancelled cancels q (λ j. ground arith) (λ j. ground arith))
  | inr e ↦ rw e (refused cancels id k q e)
]

pub call-look :
    (k now clock id : ℕ) (s : Settlement) (q : JobQueue)
    → look k (call now clock id s q) ≡ settle_at (id == k) s (look k q)
unfolding mark_succeeded mark_failed mark_retry_wait cancel settle
call-look k now clock id (succeeds result) q =
    alter-look k id (to_succeeded result) (succeeds result) q (λ j. ground arith)
      (λ j. ground arith)
call-look k now clock id (fails code detail) q =
    alter-look k id (to_failed code detail) (fails code detail) q (λ j. ground arith)
      (λ j. ground arith)
call-look k now clock id (retries code detail delay draw) q =
    alter-look k id (to_retry_wait clock code detail delay draw) (retries code detail delay draw) q
      (λ j. ground arith) (λ j. ground arith)
call-look k now clock id cancels q = cancel-look k id q

abbrev pub in_memory : Queue
in_memory = record { Store = JobQueue; look = look; call = call; look-call = call-look }
