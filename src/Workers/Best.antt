-- ===== src/Workers/Best.antt =====
-- The choice of `select_worker`, backend/app/domain/workers/scoring.py.
use native.Mathlib.Nat.{mul-le-mul_right, le_of_mul-le-mul_right}
use imagin.Prelude.{
  ℕ, ◌*◌, ◌≤◌, ◌<◌, ◌≡◌, refl, ◌⊎◌, inl, inr, String, Bool, true, false, Option, none, some, List,
  [], ◌∷◌, if◌then◌else◌, All, filter, arith, Bool-cases, ap, sym, ◌∙◌,
}
use imagin.Workers.{
  WorkerSnapshot, is_eligible, score, slots, is_less, least, least_of, select_worker,
}

-- The worker is in the list.
abbrev pub IsIn : WorkerSnapshot → List WorkerSnapshot → Type 0
IsIn w [] = ⊥
IsIn w (x ∷ xs) = (x ≡ w) ⊎ IsIn w xs

-- No higher score.
abbrev pub AtMost : String → WorkerSnapshot → WorkerSnapshot → Type 0
AtMost model a b = score a model * slots b ≤ score b model * slots a

trans : (a b c m n k : ℕ) → 0 < n → a * n ≤ b * m → b * k ≤ c * n → a * k ≤ c * m
trans a b c m n k p h g =
    let first : a * n * k ≤ b * m * k = mul-le-mul_right k h in
    let second : b * k * m ≤ c * n * m = mul-le-mul_right m g in
    let left : a * n * k ≡ a * k * n = ground arith in
    let middle : b * m * k ≡ b * k * m = ground arith in
    let right : c * n * m ≡ c * m * n = ground arith in
    le_of_mul-le-mul_right (omega (arith, left, middle, right)) p

module _ (model : String) where
  AtMost-trans : (a b c : WorkerSnapshot) → AtMost model a b → AtMost model b c → AtMost model a c
  AtMost-trans a b c h g =
      trans (score a model) (score b model) (score c model) (slots a) (slots b) (slots c)
        (omega arith) h g

  -- In the list, and no higher than anyone in it.
  abbrev IsLeast : WorkerSnapshot → List WorkerSnapshot → Type 0
  IsLeast x l = IsIn x l × All (AtMost model x) l

  lower :
      (x best w : WorkerSnapshot) (ws : List WorkerSnapshot) (b : Bool)
      → is_less model w best ≡ b
      → IsLeast x ((if b then w else best) ∷ ws)
      → IsLeast x (best ∷ w ∷ ws)
  lower x best w ws true e (h, (low, rest)) =
      (inr h, (AtMost-trans x w best low (ground arith), (low, rest)))
  lower x best w ws false e (inl h, (low, rest)) =
      (inl h, (low, (AtMost-trans x best w low (ground arith), rest)))
  lower x best w ws false e (inr h, (low, rest)) =
      (inr (inr h), (low, (AtMost-trans x best w low (ground arith), rest)))

  least-IsLeast :
      (best : WorkerSnapshot) (ws : List WorkerSnapshot) → IsLeast (least model best ws) (best ∷ ws)
  unfolding least
  least-IsLeast best [] = (inl refl, (omega arith, tt))
  least-IsLeast best (w ∷ ws) =
      lower (least model best (w ∷ ws)) best w ws (is_less model w best) refl
        (least-IsLeast (if is_less model w best then w else best) ws)

  -- Nobody is chosen where nobody is there, and otherwise the least.
  abbrev Chosen : List WorkerSnapshot → Option WorkerSnapshot → Type 0
  Chosen l none = l ≡ []
  Chosen l (some w) = IsLeast w l

  least_of-Chosen : (l : List WorkerSnapshot) → Chosen l (least_of model l)
  least_of-Chosen [] = refl
  least_of-Chosen (w ∷ ws) = least-IsLeast w ws

module _ (workers : List WorkerSnapshot) (capability model : String) (now : ℕ) where
  abbrev eligible : WorkerSnapshot → Bool
  eligible w = is_eligible w capability now

  -- The answer for the workers of a list.
  abbrev pub IsBest : List WorkerSnapshot → Option WorkerSnapshot → Type 0
  IsBest l none = All (λ w. is_eligible w capability now ≡ false) l
  IsBest l (some w) =
      IsIn w l
      × (is_eligible w capability now ≡ true)
      × All (λ x. (is_eligible x capability now ≡ false) ⊎ AtMost model w x) l

  filtered-IsIn :
      (w : WorkerSnapshot) (l : List WorkerSnapshot)
      → IsIn w (filter eligible l)
      → IsIn w l × (eligible w ≡ true)
  filtered-IsIn w [] h = absurd h
  filtered-IsIn w (x ∷ xs) h = elim (Bool-cases (eligible x)) [
    | inl e ↦ kept e (filtered-IsIn w xs) (rw e at h)
    | inr e ↦ let (here, fit) = filtered-IsIn w xs (rw e at h) in (inr here, fit)
  ]
    where
      kept :
          eligible x ≡ true
          → (IsIn w (filter eligible xs) → IsIn w xs × (eligible w ≡ true))
          → IsIn w (x ∷ filter eligible xs)
          → IsIn w (x ∷ xs) × (eligible w ≡ true)
      kept e later (inl same) = (inl same, ap eligible (sym same) ∙ e)
      kept e later (inr h) = let (here, fit) = later h in (inr here, fit)

  filtered-All :
      (w : WorkerSnapshot) (l : List WorkerSnapshot)
      → All (AtMost model w) (filter eligible l)
      → All (λ x. (eligible x ≡ false) ⊎ AtMost model w x) l
  filtered-All w [] h = tt
  filtered-All w (x ∷ xs) h = elim (Bool-cases (eligible x)) [
    | inl e ↦ let both = rw e at h in (inr both.0, filtered-All w xs both.1)
    | inr e ↦ (inl e, filtered-All w xs (rw e at h))
  ]

  filtered-none :
      (l : List WorkerSnapshot) → filter eligible l ≡ [] → All (λ x. eligible x ≡ false) l
  filtered-none [] h = tt
  filtered-none (x ∷ xs) h = elim (Bool-cases (eligible x)) [
    | inl e ↦ let no = rw e at h in absurd cc
    | inr e ↦ (e, filtered-none xs (rw e at h))
  ]

  Chosen-IsBest :
      (o : Option WorkerSnapshot) → Chosen model (filter eligible workers) o → IsBest workers o
  Chosen-IsBest none h = filtered-none workers h
  Chosen-IsBest (some w) (h, low) =
      let (here, fit) = filtered-IsIn w workers h in (here, fit, filtered-All w workers low)

  -- The worker that `select_worker` gives is one of the list, eligible, and of a score that no eligible
  -- worker of the list undercuts; it gives none only where no worker of the list is eligible.
  pub select_worker-IsBest : IsBest workers (select_worker workers capability model now)
  unfolding select_worker
  select_worker-IsBest = Chosen-IsBest _ (least_of-Chosen model (filter eligible workers))
