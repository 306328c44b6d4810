-- ===== src/Contract/Agreement.antt =====
-- What follows from the contract alone, and what it says of the two queues together.
use imagin.Prelude.{ℕ, ◌≡◌, sym, ap, ◌∙◌, [], ◌∷◌, ◌==◌}
use imagin.Contract.{settle_at, Queue, Script, play}
use imagin.Contract.InMemory.{in_memory}
use imagin.Contract.Durable.{durable}

-- A reader sees the same of every job.
abbrev pub SameViews : (p q : Queue) → p.Store → q.Store → Type 0
SameViews p q a b = (k : ℕ) → p.look k a ≡ q.look k b

-- Two queues that keep the contract, from stores in which a reader sees the same jobs: after any
-- script of settlements a reader still sees the same.
play-SameViews :
    (p q : Queue) (script : Script) (a : p.Store) (b : q.Store)
    → SameViews p q a b
    → SameViews p q (play p script a) (play q script b)
unfolding play
play-SameViews p q [] a b h = h
play-SameViews p q ((now, clock, id, s) ∷ rest) a b h =
    play-SameViews p q rest (p.call now clock id s a) (q.call now clock id s b) (λ k.
      p.look-call k now clock id s a
      ∙ ap (settle_at (id == k) s) (h k)
      ∙ sym (q.look-call k now clock id s b))

-- The in-memory queue and the database refine one contract: if a reader sees the same state, attempts
-- and error of every job in both, then so it does after any sequence of calls of `mark_succeeded`,
-- `mark_failed`, `mark_retry_wait` and `cancel`, made on both.
pub backends_agree :
    (script : Script) (a : in_memory.Store) (b : durable.Store) (k : ℕ)
    → SameViews in_memory durable a b
    → in_memory.look k (play in_memory script a) ≡ durable.look k (play durable script b)
backends_agree script a b k h = play-SameViews in_memory durable script a b h k
