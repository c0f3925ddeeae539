-- ===== src/SafeQueue.antt =====
-- src/SafeQueue.hh: a queue that a reader waits on until it is stopped. Each method runs under the
-- queue's lock but for the store in `stop`, so the calls of all threads are taken one after the
-- other.
pub mod Fifo
mod Tests
use dragonradio.Prelude.{Bool, true, false, not, ◌||◌, Option, none, some, List, [], ◌∷◌, ◌++◌}

pub record SafeQueue {ℓ} (A : Type ℓ) : Type ℓ where
  pub done : Bool
  pub q : List A

module _ {ℓ} {A : Type ℓ} where
  unfoldable pub new_queue : SafeQueue A
  new_queue = record { done = false; q = [] }

  abbrev pub is_nil : List A → Bool
  is_nil [] = true
  is_nil (x ∷ xs) = false

  -- `reset` calls `q_.empty()`, which tests the list and changes nothing.
  unfoldable pub reset : SafeQueue A → SafeQueue A
  reset s = s

  unfoldable pub empty : SafeQueue A → Bool
  empty s = is_nil s.q

  -- Both `push` and both `emplace`: an element at the end, and a reader is notified.
  unfoldable pub push : A → SafeQueue A → SafeQueue A
  push val s = record s { q = s.q ++ val ∷ [] }

  -- Both `push_front` and both `emplace_front`.
  unfoldable pub push_front : A → SafeQueue A → SafeQueue A
  push_front val s = record s { q = val ∷ s.q }

  -- The condition that `pop` waits for.
  unfoldable pub ready : SafeQueue A → Bool
  ready s = s.done || not (is_nil s.q)

  abbrev pub take_front : SafeQueue A → List A → Option A × SafeQueue A
  take_front s [] = (none, s)
  take_front s (x ∷ xs) = (some x, record s { q = xs })

  -- `pop` once its condition holds; without a value it returns false.
  unfoldable pub pop : SafeQueue A → Option A × SafeQueue A
  pop s = take_front s s.q

  unfoldable pub stop : SafeQueue A → SafeQueue A
  stop s = record s { done = true }
