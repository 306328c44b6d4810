-- ===== src/Postgres/Rows.antt =====
-- Looking up rows by their key, after an update and after an insertion.
use imagin.Prelude.{
  ℕ, ◌≡◌, refl, Bool, Option, none, some, List, [], ◌∷◌, if◌then◌else◌, All, arith,
}
use imagin.Prelude.Table.{update_where}
use imagin.Postgres.Tables.{JobRow, row_of}

abbrev pub KeepsKey : (JobRow → JobRow) → Type 0
KeepsKey f = (r : JobRow) → (f r).id ≡ r.id

-- The row, if there is one, after an update of the rows that pass the test.
abbrev pub touched : (JobRow → Bool) → (JobRow → JobRow) → Option JobRow → Option JobRow
touched p f none = none
touched p f (some r) = some (if p r then f r else r)

pub row_of-update_where :
    (k : ℕ) (p : JobRow → Bool) (f : JobRow → JobRow) (rows : List JobRow)
    → KeepsKey f
    → row_of k (update_where p f rows) ≡ touched p f (row_of k rows)
unfolding row_of update_where
row_of-update_where k p f [] keeps = refl
row_of-update_where k p f (r ∷ rs) keeps =
    ground (arith, keeps r, row_of-update_where k p f rs keeps)

pub row_of-id : (k : ℕ) (rows : List JobRow) (r : JobRow) → row_of k rows ≡ some r → r.id ≡ k
unfolding row_of
row_of-id k [] r h = cc
row_of-id k (x ∷ xs) r h = ground (arith, row_of-id k xs r)

-- Identifiers are a key.
abbrev pub IsKeyed : List JobRow → Type 0
IsKeyed [] = Unit
IsKeyed (x ∷ xs) = (row_of x.id xs ≡ none) × IsKeyed xs

pub update_where-IsKeyed :
    (p : JobRow → Bool) (f : JobRow → JobRow) (rows : List JobRow)
    → KeepsKey f
    → IsKeyed rows
    → IsKeyed (update_where p f rows)
unfolding update_where
update_where-IsKeyed p f [] keeps u = tt
update_where-IsKeyed p f (r ∷ rs) keeps u =
    ground
      (arith, keeps r, row_of-update_where r.id p f rs keeps, update_where-IsKeyed p f rs keeps u.1)

-- Each row of the list is the one under its key.
abbrev pub Holds : List JobRow → JobRow → Type 0
Holds rows r = row_of r.id rows ≡ some r

behind :
    (x : JobRow) (xs l : List JobRow)
    → row_of x.id xs ≡ none
    → All (Holds xs) l
    → All (Holds (x ∷ xs)) l
unfolding row_of
behind x xs [] h k = tt
behind x xs (y ∷ ys) h k = (ground arith, behind x xs ys h k.1)

pub IsKeyed-Holds : (rows : List JobRow) → IsKeyed rows → All (Holds rows) rows
unfolding row_of
IsKeyed-Holds [] u = tt
IsKeyed-Holds (x ∷ xs) u = (ground arith, behind x xs xs u.0 (IsKeyed-Holds xs u.1))
