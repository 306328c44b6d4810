-- ===== src/Queue/Claim/Tally.antt =====
-- The tally of active jobs by user, against a count of the jobs.
use imagin.Prelude.{
  ℕ, suc, ◌+◌, ◌≡◌, inl, inr, Bool, ◌&&◌, List, [], ◌∷◌, arith, ◌==◌, if◌then◌else◌, Bool-cases,
  count,
}
use imagin.Queue.Job.{QueuedJob, is_active}
use imagin.Queue.Claim.{Counts, count_of, bump, tally}

-- An active job of the user.
abbrev pub active_of : ℕ → QueuedJob → Bool
active_of user j = is_active j && j.user_id == user

pub count_of-bump :
    (u v : ℕ) (c : Counts)
    → count_of u (bump v c) ≡ (if v == u then suc (count_of u c) else count_of u c)
unfolding count_of bump
count_of-bump u v [] = ground arith
count_of-bump u v ((w, n) ∷ rest) = ground (arith, count_of-bump u v rest)

tally_from :
    (u : ℕ) (jobs : List QueuedJob) (c : Counts)
    → count_of u (tally jobs c) ≡ count (active_of u) jobs + count_of u c
unfolding tally
tally_from u [] c = omega arith
tally_from u (j ∷ js) c = elim (Bool-cases (is_active j)) [
  | inl e ↦ rw e (ground (arith, tally_from u js (bump j.user_id c), count_of-bump u j.user_id c))
  | inr e ↦ rw e (tally_from u js c)
]

pub count_of-tally :
    (u : ℕ) (jobs : List QueuedJob) → count_of u (tally jobs []) ≡ count (active_of u) jobs
unfolding count_of
count_of-tally u jobs = omega (arith, tally_from u jobs [])
