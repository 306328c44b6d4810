-- ===== src/Queue/Claim/Left.antt =====
-- The candidates of a claim, and what becomes of each.
use imagin.Prelude.{
  ℕ, ◌+◌, ◌≤◌, ◌<◌, String, ◌≡◌, refl, ◌∙◌, ◌⊎◌, inl, inr, true, false, ◌&&◌, Option, none, some,
  List, [], ◌∷◌, ◌++◌, arith, ltb, leb, ◌==◌, Bool-cases, length, All, length-append, All-append,
  sym, count,
}
use imagin.Queue.Job.{QueuedJob, is_claimable}
use imagin.Queue.Store.{find}
use imagin.Queue.Store.Laws.{find-update}
use imagin.Queue.Store.Unique.{IsUnique, find-filter, filter-IsUnique}
use imagin.Queue.Order.{precedes}
use imagin.Queue.Order.Laws.{IsSorted, sort-IsSorted, find-sort}
use imagin.Queue.Claim.{
  Claiming, count_of, to_dispatched, claim_one, claim_loop, candidates, claim_next,
}
use imagin.Queue.Claim.Ready.{IsReady, claim_one-IsReady, candidates-IsReady}
use imagin.Queue.Claim.Tally.{active_of, count_of-bump}
use imagin.Queue.Claim.Cap.{IsSynced, claim_next-IsSynced}
use mathlib.Core.Path.{subst}

-- The claim is full, and whatever it took precedes the job.
abbrev pub Outranked : ℕ → QueuedJob → Claiming → Type 0
Outranked room k s = (length s.claimed ≡ room) × All (λ c. precedes c k ≡ true) s.claimed

-- The job's user has reached the cap on active jobs.
abbrev pub Capped : ℕ → QueuedJob → Claiming → Type 0
Capped m k s = (0 < m) × (m ≤ count_of k.user_id s.counts)

abbrev pub Taken : QueuedJob → Claiming → Type 0
Taken k s = find k.id s.jobs ≡ some (to_dispatched k)

abbrev pub Fate : ℕ → ℕ → QueuedJob → Claiming → Type 0
Fate room m k s = Taken k s ⊎ Outranked room k s ⊎ Capped m k s

-- All that was claimed so far precedes all that is to come.
abbrev Ahead : List QueuedJob → List QueuedJob → Type 0
Ahead claimed todo = All (λ k. All (λ c. precedes c k ≡ true) claimed) todo

precedes-to_dispatched : (j k : QueuedJob) → precedes (to_dispatched j) k ≡ precedes j k
unfolding precedes
precedes-to_dispatched j k = refl

Ahead-snoc :
    (claimed : List QueuedJob) (j : QueuedJob) (todo : List QueuedJob)
    → All (λ k. precedes j k ≡ true) todo
    → Ahead claimed todo
    → Ahead (claimed ++ to_dispatched j ∷ []) todo
Ahead-snoc claimed j [] h a = tt
Ahead-snoc claimed j (k ∷ ks) h a = (
  All-append (λ c. precedes c k ≡ true) claimed (to_dispatched j ∷ []) a.0
      (precedes-to_dispatched j k ∙ h.0, tt),
  Ahead-snoc claimed j ks h.1 a.1,
)

one-Ahead :
    (m : ℕ) (j : QueuedJob) (todo : List QueuedJob) (s : Claiming)
    → IsSorted (j ∷ todo)
    → Ahead s.claimed (j ∷ todo)
    → Ahead (claim_one m j s).claimed todo
unfolding claim_one
one-Ahead m j todo s so a = elim (Bool-cases (ltb 0 m && leb m (count_of j.user_id s.counts))) [
  | inl e ↦ rw e a.1
  | inr e ↦ rw e (Ahead-snoc s.claimed j todo so.0 a.1)
]

one-count_mono :
    (m : ℕ) (j : QueuedJob) (s : Claiming) (u : ℕ)
    → count_of u s.counts ≤ count_of u (claim_one m j s).counts
unfolding claim_one
one-count_mono m j s u = ground (arith, count_of-bump u j.user_id s.counts)

loop-count_mono :
    (room m : ℕ) (todo : List QueuedJob) (s : Claiming) (u : ℕ)
    → count_of u s.counts ≤ count_of u (claim_loop room m todo s).counts
unfolding claim_loop
loop-count_mono room m [] s u = omega arith
loop-count_mono room m (j ∷ js) s u =
    ground (arith, one-count_mono m j s u, loop-count_mono room m js (claim_one m j s) u)

loop-full :
    (room m : ℕ) (j : QueuedJob) (js : List QueuedJob) (s : Claiming)
    → leb room (length s.claimed) ≡ true
    → claim_loop room m (j ∷ js) s ≡ s
unfolding claim_loop
loop-full room m j js s e = rw e

pub loop-more :
    (room m : ℕ) (j : QueuedJob) (js : List QueuedJob) (s : Claiming)
    → leb room (length s.claimed) ≡ false
    → claim_loop room m (j ∷ js) s ≡ claim_loop room m js (claim_one m j s)
unfolding claim_loop
loop-more room m j js s e = rw e

-- A job that is not among the candidates is left as it is.
pub loop-other :
    (room m k : ℕ) (todo : List QueuedJob) (s : Claiming)
    → find k todo ≡ none
    → find k (claim_loop room m todo s).jobs ≡ find k s.jobs
unfolding claim_loop claim_one find
loop-other room m k [] s h = refl
loop-other room m k (j ∷ js) s h = ground (
  arith,
  find-update k j.id to_dispatched s.jobs (λ x. refl),
  loop-other room m k js (claim_one m j s),
)

one-fate :
    (m : ℕ) (j : QueuedJob) (s : Claiming)
    → find j.id s.jobs ≡ some j
    → Taken j (claim_one m j s) ⊎ Capped m j (claim_one m j s)
unfolding claim_one
one-fate m j s h = ground (arith, find-update j.id j.id to_dispatched s.jobs (λ x. refl))

head-Fate :
    (room m : ℕ) (j : QueuedJob) (js : List QueuedJob) (s : Claiming)
    → find j.id js ≡ none
    → Taken j (claim_one m j s) ⊎ Capped m j (claim_one m j s)
    → Fate room m j (claim_loop room m js (claim_one m j s))
head-Fate room m j js s n (inl t) = inl (loop-other room m j.id js (claim_one m j s) n ∙ t)
head-Fate room m j js s n (inr c) =
    inr (inr (c.0, omega (arith, c.1, loop-count_mono room m js (claim_one m j s) j.user_id)))

All-outranked :
    (room m : ℕ) (todo : List QueuedJob) (s : Claiming)
    → length s.claimed ≡ room
    → Ahead s.claimed todo
    → All (λ k. Fate room m k s) todo
All-outranked room m [] s e a = tt
All-outranked room m (k ∷ ks) s e a = (inr (inl (e, a.0)), All-outranked room m ks s e a.1)

one-claimed-le :
    (m : ℕ) (j : QueuedJob) (s : Claiming) → length (claim_one m j s).claimed ≤ length s.claimed + 1
unfolding claim_one
one-claimed-le m j s = ground (arith, length-append s.claimed (to_dispatched j ∷ []))

loop-Fate :
    (room m : ℕ) (todo : List QueuedJob) (s : Claiming)
    → length s.claimed ≤ room
    → IsReady s.jobs todo
    → IsSorted todo
    → Ahead s.claimed todo
    → All (λ k. Fate room m k (claim_loop room m todo s)) todo
loop-Fate room m [] s le r so a = tt
loop-Fate room m (j ∷ js) s le r so a = elim (Bool-cases (leb room (length s.claimed))) [
  | inl e ↦
      subst (λ t. All (λ k. Fate room m k t) (j ∷ js)) (sym (loop-full room m j js s e))
        (All-outranked room m (j ∷ js) s (ground arith) a)
  | inr e ↦
      subst (λ t. All (λ k. Fate room m k t) (j ∷ js)) (sym (loop-more room m j js s e))
        (
          head-Fate room m j js s r.unique.0 (one-fate m j s r.stored.0),
          loop-Fate room m js (claim_one m j s) (ground (arith, one-claimed-le m j s))
              (claim_one-IsReady m j js s r) so.1 (one-Ahead m j js s so a),
        )
]

found_head :
    (k : ℕ) (x : QueuedJob) (xs : List QueuedJob) (j : QueuedJob)
    → (x.id == k) ≡ true
    → find k (x ∷ xs) ≡ some j
    → x ≡ j
unfolding find
found_head k x xs j e h = ground arith

pub All-at :
    (P : QueuedJob → Type 0) (k : ℕ) (l : List QueuedJob) (j : QueuedJob)
    → find k l ≡ some j
    → All P l
    → P j
unfolding find
All-at P k [] j h a = absurd (ground arith)
All-at P k (x ∷ xs) j h a = elim (Bool-cases (x.id == k)) [
  | inl e ↦ subst P (found_head k x xs j e h) a.0
  | inr e ↦ All-at P k xs j (ground arith) a.1
]

candidate_found :
    (now : ℕ) (kinds : Option (List String)) (jobs : List QueuedJob) (j : QueuedJob)
    → IsUnique jobs
    → find j.id jobs ≡ some j
    → is_claimable kinds now j ≡ true
    → find j.id (candidates now kinds jobs) ≡ some j
candidate_found now kinds jobs j u f c =
    find-sort j.id _ (filter-IsUnique (is_claimable kinds now) jobs u)
    ∙ find-filter j.id (is_claimable kinds now) jobs j f c

Ahead-nil : (todo : List QueuedJob) → Ahead [] todo
Ahead-nil [] = tt
Ahead-nil (k ∷ ks) = (tt, Ahead-nil ks)

tallied-Fate :
    (now room : ℕ) (kinds : Option (List String)) (m : ℕ) (jobs : List QueuedJob) (j : QueuedJob)
    → IsUnique jobs
    → find j.id jobs ≡ some j
    → is_claimable kinds now j ≡ true
    → Fate room m j (claim_next now room kinds m jobs)
unfolding claim_next
tallied-Fate now room kinds m jobs j u f c =
    All-at (λ k. Fate room m k (claim_next now room kinds m jobs)) j.id (candidates now kinds jobs)
      j (candidate_found now kinds jobs j u f c)
      (loop-Fate room m (candidates now kinds jobs) _ (omega arith)
        (candidates-IsReady now kinds jobs u) (sort-IsSorted _) (Ahead-nil _))

counted :
    (m : ℕ) (j : QueuedJob) (s : Claiming)
    → (0 < m → IsSynced s)
    → Capped m j s
    → (0 < m) × (m ≤ count (active_of j.user_id) s.jobs)
counted m j s sync c = (c.0, omega (arith, c.1, sync c.0 j.user_id))

-- Where no two jobs share an identifier, each claimable job is claimed, or the claim is full with
-- jobs that all precede it in the order of priority and then of age, or there is a cap and its user
-- has that many active jobs by then.
pub claim_next-fate :
    (now room : ℕ) (kinds : Option (List String)) (m : ℕ) (jobs : List QueuedJob) (j : QueuedJob)
    → IsUnique jobs
    → find j.id jobs ≡ some j
    → is_claimable kinds now j ≡ true
    → let s = claim_next now room kinds m jobs in
      (find j.id s.jobs ≡ some (to_dispatched j))
      ⊎ (length s.claimed ≡ room) × All (λ c. precedes c j ≡ true) s.claimed
      ⊎ (0 < m) × (m ≤ count (active_of j.user_id) s.jobs)
claim_next-fate now room kinds m jobs j u f c = elim (tallied-Fate now room kinds m jobs j u f c) [
  | inl t ↦ inl t
  | inr (inl o) ↦ inr (inl o)
  | inr (inr k) ↦ inr (
      inr (
        counted m j (claim_next now room kinds m jobs) (claim_next-IsSynced now room kinds m jobs u)
          k))
]
