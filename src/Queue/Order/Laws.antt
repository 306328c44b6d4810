-- ===== src/Queue/Order/Laws.antt =====
-- The order of the sorted list, and the jobs it holds.
use imagin.Prelude.{
  ℕ, ◌≡◌, refl, Bool, true, false, none, some, List, [], ◌∷◌, ◌==◌, if◌then◌else◌, All, count,
  arith, Bool-cases, inl, inr, ◌∙◌,
}
use imagin.Queue.Job.{QueuedJob}
use imagin.Queue.Store.{find}
use imagin.Queue.Store.Unique.{IsUnique}
use imagin.Queue.Order.{precedes, insert, sort}

-- Every job precedes all that come after it.
abbrev pub IsSorted : List QueuedJob → Type 0
IsSorted [] = Unit
IsSorted (x ∷ xs) = All (λ y. precedes x y ≡ true) xs × IsSorted xs

pub precedes_refl : (a : QueuedJob) → precedes a a ≡ true
unfolding precedes
precedes_refl a = ground arith

precedes_total : (a b : QueuedJob) → precedes a b ≡ false → precedes b a ≡ true
unfolding precedes
precedes_total a b h = ground arith

pub precedes_trans :
    (a b c : QueuedJob) → precedes a b ≡ true → precedes b c ≡ true → precedes a c ≡ true
unfolding precedes
precedes_trans a b c h k = ground arith

insert-All {κ} :
    (P : QueuedJob → Type κ) (x : QueuedJob) (l : List QueuedJob)
    → P x
    → All P l
    → All P (insert x l)
unfolding insert
insert-All P x [] h k = (h, tt)
insert-All P x (y ∷ ys) h k = elim (Bool-cases (precedes x y)) [
  | inl e ↦ rw e (h, k)
  | inr e ↦ rw e (k.0, insert-All P x ys h k.1)
]

pub sort-All {κ} : (P : QueuedJob → Type κ) (l : List QueuedJob) → All P l → All P (sort l)
unfolding sort
sort-All P [] h = tt
sort-All P (x ∷ xs) h = insert-All P x (sort xs) h.0 (sort-All P xs h.1)

weaken :
    (x y : QueuedJob) (l : List QueuedJob)
    → precedes x y ≡ true
    → All (λ z. precedes y z ≡ true) l
    → All (λ z. precedes x z ≡ true) l
weaken x y [] h k = tt
weaken x y (z ∷ zs) h k = (precedes_trans x y z h k.0, weaken x y zs h k.1)

insert-IsSorted : (x : QueuedJob) (l : List QueuedJob) → IsSorted l → IsSorted (insert x l)
unfolding insert
insert-IsSorted x [] h = (tt, tt)
insert-IsSorted x (y ∷ ys) h = elim (Bool-cases (precedes x y)) [
  | inl e ↦ rw e ((e, weaken x y ys e h.0), h)
  | inr e ↦ rw e (
    insert-All (λ z. precedes y z ≡ true) x ys (precedes_total x y e) h.0,
    insert-IsSorted x ys h.1,
  )
]

pub sort-IsSorted : (l : List QueuedJob) → IsSorted (sort l)
unfolding sort
sort-IsSorted [] = tt
sort-IsSorted (x ∷ xs) = insert-IsSorted x (sort xs) (sort-IsSorted xs)

find-insert :
    (k : ℕ) (x : QueuedJob) (l : List QueuedJob)
    → find x.id l ≡ none
    → find k (insert x l) ≡ (if x.id == k then some x else find k l)
unfolding find insert
find-insert k x [] h = refl
find-insert k x (y ∷ ys) h = ground (arith, find-insert k x ys)

-- Sorting changes no lookup, where identifiers are distinct.
pub find-sort : (k : ℕ) (l : List QueuedJob) → IsUnique l → find k (sort l) ≡ find k l
unfolding sort find
find-sort k [] u = refl
find-sort k (x ∷ xs) u =
    ground (arith, find-sort x.id xs u.1, find-sort k xs u.1, find-insert k x (sort xs))

insert-IsUnique :
    (x : QueuedJob) (l : List QueuedJob) → find x.id l ≡ none → IsUnique l → IsUnique (insert x l)
unfolding insert find
insert-IsUnique x [] h u = (refl, tt)
insert-IsUnique x (y ∷ ys) h u = ground (arith, find-insert y.id x ys, insert-IsUnique x ys)

pub sort-IsUnique : (l : List QueuedJob) → IsUnique l → IsUnique (sort l)
unfolding sort
sort-IsUnique [] u = tt
sort-IsUnique (x ∷ xs) u =
    insert-IsUnique x (sort xs) (find-sort x.id xs u.1 ∙ u.0) (sort-IsUnique xs u.1)

count-insert :
    (p : QueuedJob → Bool) (x : QueuedJob) (l : List QueuedJob)
    → count p (insert x l) ≡ count p (x ∷ l)
unfolding insert
count-insert p x [] = refl
count-insert p x (y ∷ ys) = ground (arith, count-insert p x ys)

-- Every test passes equally often before and after.
pub count-sort : (p : QueuedJob → Bool) (l : List QueuedJob) → count p (sort l) ≡ count p l
unfolding sort
count-sort p [] = refl
count-sort p (x ∷ xs) = ground (arith, count-insert p x (sort xs), count-sort p xs)
