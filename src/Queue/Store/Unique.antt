-- ===== src/Queue/Store/Unique.antt =====
-- The keys of a dictionary, and the operations on it.
use imagin.Prelude.{
  ℕ, ◌≡◌, none, some, List, [], ◌∷◌, All, arith, refl, inl, inr, Bool, true, Bool-cases, filter,
}
use imagin.Queue.Job.{QueuedJob}
use imagin.Queue.Store.{find, update, put}
use imagin.Queue.Store.Laws.{KeepsId, find-update, find-put}

-- No two jobs have one identifier.
abbrev pub IsUnique : List QueuedJob → Type 0
IsUnique [] = Unit
IsUnique (x ∷ xs) = (find x.id xs ≡ none) × IsUnique xs

-- Each job of a list is what a lookup in the store finds under its identifier.
abbrev pub IsStored : List QueuedJob → List QueuedJob → Type 0
IsStored store = All (λ j. find j.id store ≡ some j)

pub update-IsUnique :
    (id : ℕ) (f : QueuedJob → QueuedJob) (l : List QueuedJob)
    → KeepsId f
    → IsUnique l
    → IsUnique (update id f l)
unfolding update
update-IsUnique id f [] keeps u = tt
update-IsUnique id f (x ∷ xs) keeps u =
    ground (arith, keeps x, find-update x.id id f xs keeps, update-IsUnique id f xs keeps u.1)

pub put-IsUnique : (job : QueuedJob) (l : List QueuedJob) → IsUnique l → IsUnique (put job l)
unfolding put find
put-IsUnique job [] u = (refl, tt)
put-IsUnique job (x ∷ xs) u = ground (arith, find-put x.id job xs, put-IsUnique job xs u.1)

find-filter-none :
    (k : ℕ) (p : QueuedJob → Bool) (l : List QueuedJob)
    → find k l ≡ none
    → find k (filter p l) ≡ none
unfolding find
find-filter-none k p [] h = refl
find-filter-none k p (x ∷ xs) h = ground (arith, find-filter-none k p xs)

pub filter-IsUnique :
    (p : QueuedJob → Bool) (l : List QueuedJob) → IsUnique l → IsUnique (filter p l)
filter-IsUnique p [] u = tt
filter-IsUnique p (x ∷ xs) u =
    ground (arith, find-filter-none x.id p xs u.0, filter-IsUnique p xs u.1)

pub All-filter {κ} :
    (P : QueuedJob → Type κ) (p : QueuedJob → Bool) (l : List QueuedJob)
    → All P l
    → All P (filter p l)
All-filter P p [] h = tt
All-filter P p (x ∷ xs) h = elim (Bool-cases (p x)) [
  | inl e ↦ rw e (h.0, All-filter P p xs h.1)
  | inr e ↦ rw e (All-filter P p xs h.1)
]

-- What a filter lets through satisfies its test.
pub filter-All : (p : QueuedJob → Bool) (l : List QueuedJob) → All (λ j. p j ≡ true) (filter p l)
filter-All p [] = tt
filter-All p (x ∷ xs) = elim (Bool-cases (p x)) [
  | inl e ↦ rw e (e, filter-All p xs)
  | inr e ↦ rw e (filter-All p xs)
]

-- A lookup in a filtered dictionary.
pub find-filter :
    (k : ℕ) (p : QueuedJob → Bool) (l : List QueuedJob) (j : QueuedJob)
    → find k l ≡ some j
    → p j ≡ true
    → find k (filter p l) ≡ some j
unfolding find
find-filter k p [] j h q = absurd (ground arith)
find-filter k p (x ∷ xs) j h q = ground (arith, find-filter k p xs j)

stored_later :
    (x : QueuedJob) (store l : List QueuedJob)
    → find x.id l ≡ none
    → IsStored store l
    → IsStored (x ∷ store) l
unfolding find
stored_later x store [] n h = tt
stored_later x store (y ∷ ys) n h = (ground arith, stored_later x store ys (ground arith) h.1)

-- In a dictionary each job is found under its own identifier.
pub IsStored-self : (l : List QueuedJob) → IsUnique l → IsStored l l
unfolding find
IsStored-self [] u = tt
IsStored-self (x ∷ xs) u = (ground arith, stored_later x xs xs u.0 (IsStored-self xs u.1))
