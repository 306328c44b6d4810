-- ===== src/Queue/Claim/Lease.antt =====
-- The jobs that `claim_next_with_lease` returns.
use imagin.Prelude.{
  ℕ, ◌+◌, String, ◌≡◌, refl, sym, ◌∙◌, inl, inr, false, ◌&&◌, Option, none, some, List, [], ◌∷◌,
  ◌++◌, map, arith, ltb, leb, ◌==◌, Bool-cases, length, All, All-append,
}
use imagin.Jobs.StateMachine.{dispatched}
use imagin.Queue.Job.{QueuedJob}
use imagin.Queue.Store.{find, update}
use imagin.Queue.Store.Laws.{find-update}
use imagin.Queue.Store.Unique.{IsUnique, IsStored}
use imagin.Queue.Claim.{
  Claiming, count_of, to_dispatched, to_leased, claim_one, claim_loop, candidates, claim_next,
  stamp_leases, claim_next_with_lease,
}
use mathlib.Core.Path.{subst}
use imagin.Queue.Claim.Ready.{IsReady, stored-update, claim_one-IsReady, candidates-IsReady}

find-append :
    (k : ℕ) (xs : List QueuedJob) (y : QueuedJob)
    → find k xs ≡ none
    → (y.id == k) ≡ false
    → find k (xs ++ y ∷ []) ≡ none
unfolding find
find-append k [] y h e = rw e
find-append k (x ∷ xs) y h e = ground (arith, find-append k xs y)

snoc-IsUnique :
    (xs : List QueuedJob) (y : QueuedJob)
    → IsUnique xs
    → find y.id xs ≡ none
    → IsUnique (xs ++ y ∷ [])
unfolding find
snoc-IsUnique [] y u h = (refl, tt)
snoc-IsUnique (x ∷ xs) y u h =
    (find-append x.id xs y u.0 (ground arith), snoc-IsUnique xs y u.1 (ground arith))

-- The claimed jobs stand in the queue as they are returned, once each, and none is still to come.
record IsTracked (s : Claiming) (todo : List QueuedJob) : Type 0 where
  stored : IsStored s.jobs s.claimed
  unique : IsUnique s.claimed
  apart : All (λ k. find k.id s.claimed ≡ none) todo
  state : All (λ c. c.state ≡ dispatched) s.claimed

apart-snoc :
    (claimed : List QueuedJob) (j : QueuedJob) (todo : List QueuedJob)
    → find j.id todo ≡ none
    → All (λ k. find k.id claimed ≡ none) todo
    → All (λ k. find k.id (claimed ++ to_dispatched j ∷ []) ≡ none) todo
unfolding find
apart-snoc claimed j [] n h = tt
apart-snoc claimed j (k ∷ ks) n h = (
  find-append k.id claimed (to_dispatched j) h.0 (ground arith),
  apart-snoc claimed j ks (ground arith) h.1,
)

take-IsTracked :
    (j : QueuedJob) (todo : List QueuedJob) (s t : Claiming)
    → t.claimed ≡ s.claimed ++ to_dispatched j ∷ []
    → t.jobs ≡ update j.id to_dispatched s.jobs
    → find j.id s.jobs ≡ some j
    → find j.id todo ≡ none
    → IsTracked s (j ∷ todo)
    → IsTracked t todo
take-IsTracked j todo s t ec ej f n h = record {
  stored =
      rw (ec, ej)
        (All-append _ s.claimed (to_dispatched j ∷ [])
          (stored-update j.id to_dispatched s.jobs s.claimed (λ x. refl) h.apart.0 h.stored)
          (ground (arith, find-update j.id j.id to_dispatched s.jobs (λ x. refl)), tt));
  unique = rw ec (snoc-IsUnique s.claimed (to_dispatched j) h.unique h.apart.0);
  apart =
      subst (λ c. All (λ k. find k.id c ≡ none) todo) (sym ec)
        (apart-snoc s.claimed j todo n h.apart.1);
  state = rw ec (All-append _ s.claimed (to_dispatched j ∷ []) h.state (refl, tt));
}

one-IsTracked :
    (m : ℕ) (j : QueuedJob) (todo : List QueuedJob) (s : Claiming)
    → find j.id s.jobs ≡ some j
    → find j.id todo ≡ none
    → IsTracked s (j ∷ todo)
    → IsTracked (claim_one m j s) todo
unfolding claim_one
one-IsTracked m j todo s f n h =
    elim (Bool-cases (ltb 0 m && leb m (count_of j.user_id s.counts))) [
      | inl e ↦
          rw e (record { stored = h.stored; unique = h.unique; apart = h.apart.1; state = h.state })
      | inr e ↦ rw e (take-IsTracked j todo s _ refl refl f n h)
    ]

loop-IsTracked :
    (room m : ℕ) (todo : List QueuedJob) (s : Claiming)
    → IsReady s.jobs todo
    → IsTracked s todo
    → IsTracked (claim_loop room m todo s) []
unfolding claim_loop
loop-IsTracked room m [] s r h = h
loop-IsTracked room m (j ∷ js) s r h = elim (Bool-cases (leb room (length s.claimed))) [
  | inl e ↦ rw e (record { stored = h.stored; unique = h.unique; apart = tt; state = h.state })
  | inr e ↦ rw e (
      loop-IsTracked room m js (claim_one m j s) (claim_one-IsReady m j js s r)
        (one-IsTracked m j js s r.stored.0 r.unique.0 h))
]

apart-nil : (todo : List QueuedJob) → All (λ k. find k.id [] ≡ none) todo
unfolding find
apart-nil [] = tt
apart-nil (k ∷ ks) = (refl, apart-nil ks)

claim-IsTracked :
    (now room : ℕ) (kinds : Option (List String)) (m : ℕ) (jobs : List QueuedJob)
    → IsUnique jobs
    → IsTracked (claim_next now room kinds m jobs) []
unfolding claim_next
claim-IsTracked now room kinds m jobs u =
    loop-IsTracked room m (candidates now kinds jobs) _ (candidates-IsReady now kinds jobs u)
      (record { stored = tt; unique = tt; apart = apart-nil _; state = tt })

stamp-other :
    (owner : String) (expires k : ℕ) (l jobs : List QueuedJob)
    → find k l ≡ none
    → find k (stamp_leases owner expires l jobs) ≡ find k jobs
unfolding stamp_leases find
stamp-other owner expires k [] jobs h = refl
stamp-other owner expires k (j ∷ js) jobs h = ground (
  arith,
  find-update k j.id (to_leased owner expires) jobs (λ x. refl),
  stamp-other owner expires k js (update j.id (to_leased owner expires) jobs),
)

stamp-stored :
    (owner : String) (expires : ℕ) (l jobs : List QueuedJob)
    → IsUnique l
    → IsStored jobs l
    → IsStored (stamp_leases owner expires l jobs) (map (to_leased owner expires) l)
unfolding stamp_leases
stamp-stored owner expires [] jobs u h = tt
stamp-stored owner expires (j ∷ js) jobs u h =
    let f = to_leased owner expires in
    (
      stamp-other owner expires j.id js (update j.id f jobs) u.0
          ∙ ground (arith, find-update j.id j.id f jobs (λ x. refl)),
      stamp-stored owner expires js (update j.id f jobs) u.1
          (stored-update j.id f jobs js (λ x. refl) u.0 h.1),
    )

-- What a returned job shows of its lease.
abbrev pub HasLease : String → ℕ → QueuedJob → Type 0
HasLease owner expires c =
    (c.state ≡ dispatched) × (c.lease_owner ≡ some owner) × (c.lease_expires_at ≡ some expires)

map-HasLease :
    (owner : String) (expires : ℕ) (l : List QueuedJob)
    → All (λ c. c.state ≡ dispatched) l
    → All (HasLease owner expires) (map (to_leased owner expires) l)
map-HasLease owner expires [] h = tt
map-HasLease owner expires (j ∷ js) h = ((h.0, refl, refl), map-HasLease owner expires js h.1)

-- Where no two jobs share an identifier, each job that the claim returns is the one in the queue
-- under its identifier, is dispatched, and has a lease of the owner that ends the lease time after
-- the stamp.
pub claim_next_with_lease_returned :
    (now stamp_time room : ℕ) (owner : String) (lease : ℕ) (kinds : Option (List String)) (m : ℕ)
    (jobs : List QueuedJob)
    → IsUnique jobs
    → let s = claim_next_with_lease now stamp_time room owner lease kinds m jobs in
      IsStored s.jobs s.claimed × All (HasLease owner (stamp_time + lease)) s.claimed
unfolding claim_next_with_lease
claim_next_with_lease_returned now stamp_time room owner lease kinds m jobs u =
    let t = claim-IsTracked now room kinds m jobs u in
    (
      stamp-stored owner (stamp_time + lease) _ _ t.unique t.stored,
      map-HasLease owner (stamp_time + lease) _ t.state,
    )
