-- ===== src/ThreadPool/Queueing.antt =====
-- What a pool of src/threadpool.cpp promises: a queue with servers, first in, first out, bounded when
-- an item is added, and without a way out while it is closed.
use ehttp.Base.{
  ℕ, ◌≡◌, Bool, true, false, List, [], ◌∷◌, ◌++◌, Option, none, some, ℤ, if◌then◌else◌, ◌==◌,
  length,
}
use ehttp.ThreadPool.{reaches_limit}

-- The items that wait, and the item that each server has.
pub record Queue (T : Type 0) : Type 0 where
  pub items : List T
  pub limit : ℤ
  pub is_closed : Bool
  pub serving : ℕ → Option T

-- The items, the limit and the gate of `r`, next to those of `q`.
pub record Moves {T : Type 0} (items : List T) (closed : Bool) (q r : Queue T) : Type 0 where
  pub waiting_items : r.items ≡ items
  pub same_limit : r.limit ≡ q.limit
  pub gate : r.is_closed ≡ closed

-- One server gets or loses an item, and all others are as they were; or all are.
abbrev pub Serves : {T : Type 0} → ℕ → Option T → Queue T → Queue T → Type 0
Serves i item q r = (j : ℕ) → r.serving j ≡ (if i == j then item else q.serving j)

abbrev pub SameServing : {T : Type 0} → Queue T → Queue T → Type 0
SameServing q r = (j : ℕ) → r.serving j ≡ q.serving j

-- The steps of a queue.
pub data QueueStep {T : Type 0} : Queue T → Queue T → Type 0 where
  push :
      {q r : Queue T} (item : T)
      → reaches_limit q.limit (length q.items) ≡ false
      → Moves (q.items ++ item ∷ []) q.is_closed q r
      → SameServing q r
      → QueueStep q r
  pop :
      {q r : Queue T} (i : ℕ) (item : T) (rest : List T)
      → q.is_closed ≡ false
      → q.items ≡ item ∷ rest
      → q.serving i ≡ none
      → Moves rest q.is_closed q r
      → Serves i (some item) q r
      → QueueStep q r
  finish :
      {q r : Queue T} (i : ℕ) (item : T)
      → q.serving i ≡ some item
      → Moves q.items q.is_closed q r
      → Serves i none q r
      → QueueStep q r
  close : {q r : Queue T} → Moves q.items true q r → SameServing q r → QueueStep q r
  reopen :
      {q r : Queue T}
      → q.is_closed ≡ true
      → Moves q.items false q r
      → SameServing q r
      → QueueStep q r
  skip : {q r : Queue T} → Moves q.items q.is_closed q r → SameServing q r → QueueStep q r
