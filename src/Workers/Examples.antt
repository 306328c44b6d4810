-- ===== src/Workers/Examples.antt =====
-- The choice of a worker at a concrete input.
use imagin.Prelude.{none, some, [], ◌∷◌, List, ◌≡◌, refl}
use imagin.Workers.{WorkerSnapshot, select_worker, is_eligible, score, least}
use imagin.Workers.Best.{IsBest, select_worker-IsBest}

abbrev worker : WorkerSnapshot
worker = record {
  worker_id = "a";
  status = "online";
  capabilities = "sdxl" ∷ [];
  max_slots = 4;
  reserved_slots = 1;
  running_slots = 2;
  local_queue_depth = 3;
  last_heartbeat_at = 90000000;
  recent_failure_rate = 10000;
  current_model_loaded = none;
}

abbrev three : List WorkerSnapshot
three =
    worker
    ∷ record worker { worker_id = "b"; running_slots = 0 }
    ∷ record worker { worker_id = "c"; running_slots = 0; last_heartbeat_at = 60000000 }
    ∷ []

least_busy :
    select_worker three "sdxl" "base" 100000000
    ≡ some (record worker { worker_id = "b"; running_slots = 0 })
unfolding select_worker is_eligible score least
least_busy = refl

select_worker-IsBest_example :
    IsBest three "sdxl" "base" 100000000 three (select_worker three "sdxl" "base" 100000000)
select_worker-IsBest_example = select_worker-IsBest three "sdxl" "base" 100000000
