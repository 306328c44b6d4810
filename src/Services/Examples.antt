-- ===== src/Services/Examples.antt =====
-- The theorems on the scheduler and the reconciler at concrete inputs.
use imagin.Queue.{JobQueue}
use imagin.Queue.Claim.{claim_next, claim_loop, claim_one, to_dispatched}
use imagin.Queue.Order.{sort, precedes}
use imagin.Services.Reconciler.Stale.{claimed_settled_by_old_prompt}
use imagin.Services.Reconciler.Calls.{run_once-finished}
use imagin.Queue.Store.Unique.{IsUnique}
use imagin.Services.Scheduler.Lanes.{lane, tick_lanes}
use imagin.Queue.Calls.Finished.{Holds}
use imagin.Services.Scheduler.Dispatch.{Round, rounds, dispatch_raised_ignores_max}
use imagin.Queue.Store.{find, update}
use imagin.Comfy.{ComfyStatus, failed_status}
use imagin.Services.Reconciler.{result_of, Config, reconcile_job, run_once}
use imagin.Jobs.Retry.{is_retryable}
use imagin.Services.Reconciler.Settle.{SettledIn, reconcile_job-SettledIn}
use imagin.Services.Scheduler.{Turn, tick, comfy_slots}
use imagin.Config.Fixtures.{settings}
use imagin.Prelude.{ℕ, List, [], ◌∷◌, none, some, refl, false, String, ◌+◌, ◌≤◌, max, ◌≡◌, length}
use imagin.Jobs.StateMachine.{succeeded, retry_wait}
use imagin.Queue.Job.{QueuedJob}
use imagin.Queue.Fixtures.{early, busy, over, four, queue}

abbrev turn : Turn
turn = record { owner = "scheduler"; lease = 30; now = 100; stamp_time = 101 }

abbrev offline : List String
offline = "offline" ∷ []

abbrev config : Config
config = record { lease = 30; stale = 600 }

abbrev answer : String → ComfyStatus
answer prompt = failed_status prompt "gone"

four-IsUnique : IsUnique four
unfolding find
four-IsUnique = (refl, (refl, (refl, (refl, tt))))

found_busy : find 3 four ≡ some busy
unfolding find
found_busy = refl

tick_lanes_example :
    let r = tick settings turn turn none queue in
    (lane "comfyui" r.0 ≤ max (comfy_slots settings) (lane "comfyui" queue))
    × (lane "gemini" r.0 ≤ max 3 (lane "gemini" queue))
    × (lane "comfyui" r.0 + lane "gemini" r.0
        ≡ lane "comfyui" queue + lane "gemini" queue + length r.1)
tick_lanes_example = tick_lanes settings turn turn none queue four-IsUnique

reconcile_job-SettledIn_example :
    SettledIn answer busy (reconcile_job config 100 101 0 answer busy queue)
reconcile_job-SettledIn_example =
    reconcile_job-SettledIn config 100 101 0 answer queue busy found_busy refl

run_once-finished_example :
    Holds 4 over (run_once config 100 101 0 (λ p. some (answer p)) queue).0.jobs
unfolding find
run_once-finished_example =
    run_once-finished config 100 101 0 (λ p. some (answer p)) queue 4 over four-IsUnique refl refl

-- The users may have nine jobs active at once.
abbrev round_at : ℕ → Round
round_at now = record {
  now = now;
  room = 4;
  kinds = none;
  max_active_per_user = 9;
  draw = 0;
  name = "Timeout";
}

dispatch_raised_ignores_max_example :
    let last = early.current_attempt + 3 in
    (after : QueuedJob) × (find 1
        (rounds 1 (round_at 100 ∷ round_at 900000000 ∷ round_at 1800000000 ∷ []) queue).jobs
      ≡ some after)
    × (after.state ≡ retry_wait)
    × (after.current_attempt ≡ last)
    × (early.max_attempts ≤ last
        → is_retryable "worker_unreachable" after.current_attempt after.max_attempts ≡ false)
unfolding find
dispatch_raised_ignores_max_example =
    dispatch_raised_ignores_max 1 (round_at 100) (round_at 900000000 ∷ round_at 1800000000 ∷ [])
      queue early four-IsUnique refl

abbrev again : QueuedJob
again = record early { state = retry_wait; prompt_id = some "old" }

abbrev waiting_again : JobQueue
waiting_again = record { jobs = again ∷ []; order = 1 ∷ [] }

abbrev done : String → ComfyStatus
done prompt = record { prompt_id = prompt; state = "succeeded"; outputs = none; error = none }

taken_again : find 1 (claim_next 100 1 none 0 waiting_again.jobs).jobs ≡ some (to_dispatched again)
unfolding claim_next claim_loop sort precedes claim_one update find
taken_again = refl

claimed_settled_by_old_prompt_example :
    (after : QueuedJob) × (find 1
        (reconcile_job config 100 101 0 done (to_dispatched again) (record {
          jobs = (claim_next 100 1 none 0 waiting_again.jobs).jobs;
          order = 1 ∷ [];
        })).jobs
      ≡ some after)
    × (after.state ≡ succeeded)
    × (after.result ≡ some (result_of (done "old")))
claimed_settled_by_old_prompt_example =
    claimed_settled_by_old_prompt config 100 101 0 done 1 none 0 waiting_again again "old" refl refl
      refl taken_again
