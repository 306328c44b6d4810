-- ===== src/Queue/Store.antt =====
-- The dictionary of jobs, `self._jobs`: the jobs in insertion order, each under its own `id`.
-- An object that several places share is one entry here, and a change to it goes through `update`.
pub mod Laws
pub mod Unique
use imagin.Prelude.{ℕ, Option, none, some, List, [], ◌∷◌, ◌==◌, if◌then◌else◌}
use imagin.Queue.Job.{QueuedJob}

-- `self._jobs.get(job_id)`
unfoldable pub find : ℕ → List QueuedJob → Option QueuedJob
find id [] = none
find id (j ∷ js) = if j.id == id then some j else find id js

-- Changes the job with the identifier, and nothing where it is missing.
unfoldable pub update : ℕ → (QueuedJob → QueuedJob) → List QueuedJob → List QueuedJob
update id f [] = []
update id f (j ∷ js) = if j.id == id then f j ∷ js else j ∷ update id f js

-- `self._jobs[job.id] = job`: a key that is there keeps its place.
unfoldable pub put : QueuedJob → List QueuedJob → List QueuedJob
put job [] = job ∷ []
put job (j ∷ js) = if j.id == job.id then job ∷ js else j ∷ put job js
