-- ===== src/Comfy/MultiWorker/Examples.antt =====
-- The theorem on the several workers at a concrete input.
use imagin.Prelude.{none, some, refl, true, [], ◌∷◌, String, ◌≡◌}
use imagin.Prelude.Json.{end}
use imagin.Config.TallyMarks.{print_int, marks, tally_marks, read-print_int, print_int-no_colon}
use imagin.Comfy.{Client, accepted, failed_status}
use imagin.Prelude.Parts.{with_colon, join}
use imagin.Comfy.MultiWorker.{
  cancel, submit, pick_worker, MultiWorker, get_elem?, wrapped, get_status, submit,
}
use imagin.Comfy.MultiWorker.RoundTrip.{PrintsIntegers, submit-get_status}

abbrev worker : String → Client
worker prompt = record {
  submit = λ payload kind. accepted prompt;
  get_status = λ p. failed_status p "gone";
  health = true;
}

abbrev two : MultiWorker
two = record { workers = worker "a" ∷ worker "b" ∷ []; next_index = 3 }

ints : PrintsIntegers tally_marks
ints = record { reads_back = read-print_int; no_colon = print_int-no_colon }

submit-get_status_example :
    (w : Client) × (real_id : String) × (get_elem? two.workers 1 ≡ some w)
    × (w.submit end none ≡ accepted real_id)
    × (get_status tally_marks two.workers "1:b" ≡ wrapped tally_marks "1:b" (w.get_status real_id))
    × (cancel tally_marks two.workers "1:b" ≡ some (w, real_id))
unfolding submit get_elem? pick_worker with_colon join print_int marks
submit-get_status_example = submit-get_status tally_marks ints two end none "1:b" refl
