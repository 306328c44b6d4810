-- ===== src/RateLimit/Examples.antt =====
-- The theorems on the limits at concrete inputs, with one counter as Redis.
use imagin.Prelude.{
  ℕ, ◌+◌, ◌-◌, ◌*◌, ◌≤◌, ◌<◌, ◌≡◌, refl, inl, inr, Option, none, some, List, [], ◌∷◌, length, min,
  arith,
}
use imagin.Config.TallyMarks.{tally_marks}
use imagin.RateLimit.{Redis, window_of, seconds_until_window_reset}
use imagin.RateLimit.Window.{seconds_until_window_reset_later}
use imagin.Prelude.Int.{pos, plus_one}
use imagin.RateLimit.Answers.{Counter, Answers, amount_at, raise, lower, set_ttl}
use imagin.RateLimit.Counts.{allowed, check_rate_limit-allowed}
use imagin.RateLimit.Gate.{State, Event, arrives, ends, steps, IsKept, steps-IsKept}
use imagin.RateLimit.Late.{burst, late_end}

-- One counter, for every key.
abbrev one_counter : Redis
one_counter = record {
  Store = Option Counter;
  incr = λ k t c. some (plus_one (amount_at t c), raise t c);
  decr = λ k t c. some (lower t c);
  expire = λ k ttl t c. some (set_ttl ttl t c);
}

abbrev answers : Answers one_counter
answers = record {
  counter = λ k c. c;
  raised = λ k t c. raise t c;
  lowered = λ k t c. lower t c;
  timed = λ k ttl t c. set_ttl ttl t c;
  incr-some = λ k t c. refl;
  decr-some = λ k t c. refl;
  expire-some = λ k ttl t c. refl;
  counter-raised = λ k t c. refl;
  counter-lowered = λ k t c. refl;
  counter-timed = λ k ttl t c. refl;
}

seconds_until_window_reset_later_example :
    (window_of 59500000 60
      < window_of (59500000 + seconds_until_window_reset 59500000 60 * 1000000) 60)
    × (2 ≤ seconds_until_window_reset 59500000 60)
    × (seconds_until_window_reset 59500000 60 ≤ 60 + 1)
seconds_until_window_reset_later_example =
    seconds_until_window_reset_later 59500000 60 (omega arith)

abbrev times : List ℕ
times = 1000000 ∷ 2000000 ∷ 3000000 ∷ []

check_rate_limit-allowed_example :
    allowed one_counter answers tally_marks "chat" "u" 2 60 times none ≡ min (length times) (2 - 0)
unfolding window_of
check_rate_limit-allowed_example =
    check_rate_limit-allowed one_counter answers tally_marks "chat" "u" 2 60 0 0 times none
      (omega arith) (omega arith) (λ t h. refl) (refl, (refl, (refl, tt)))

abbrev nobody : State one_counter 2 60
nobody = record { held = 0; until = 0; store = none }

abbrev day : List Event
day = arrives 1000000 ∷ arrives 2000000 ∷ arrives 3000000 ∷ ends 30000000 ∷ []

steps-IsKept_example :
    IsKept one_counter 2 60 answers (omega arith) (omega arith) (steps one_counter 2 60 day nobody)
steps-IsKept_example =
    steps-IsKept one_counter 2 60 answers (omega arith) (omega arith) day nobody
      (inr (refl, refl), omega arith)
      (inl refl, (inr (omega arith), (inr (omega arith), (inr (omega arith), tt))))

-- One request is in since 1 s.
abbrev one_in : State one_counter 2 60
one_in = record {
  held = 1;
  until = 61000000;
  store = some (record { amount = pos 1; until = some 61000000 });
}

late_end_example : (steps one_counter 2 60 (ends 70000000 ∷ burst 80000000 3) one_in).held ≡ 0 + 3
late_end_example =
    late_end one_counter 2 60 answers (omega arith) (omega arith) 70000000 80000000 0 one_in
      (inl refl, omega arith) refl (omega arith)
