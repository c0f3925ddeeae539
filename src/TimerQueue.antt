-- ===== src/TimerQueue.antt =====
-- src/TimerQueue.{hh,cc}: timers by their deadlines. A timer is a number that names it, and a time is
-- a number of microseconds. Each method runs under the queue's lock, which `run` gives up while a
-- timer fires: `fire` stands for the timer's `operator()` and for what other threads do meanwhile.
pub mod Pending
pub mod Run
mod Tests
use dragonradio.Prelude.{
  ℕ, zero, suc, ◌+◌, ◌-◌, Bool, true, false, not, ◌&&◌, Option, none, some, List, [], ◌∷◌,
  if◌then◌else◌, ◌==◌, ltb,
}
use dragonradio.Heap
use dragonradio.Heap.{Heap, new_heap, in_heap, is_top, top, empty}

pub record TimerQueue : Type 0 where
  pub deadline : ℕ → ℕ
  pub timer_queue : Heap
  pub done : Bool

-- The constructor; each timer's deadline is its own.
unfoldable pub new_timer_queue : (ℕ → ℕ) → TimerQueue
new_timer_queue deadline = record { deadline = deadline; timer_queue = new_heap; done = true }

-- `t.deadline = when`
abbrev pub with_deadline : ℕ → ℕ → (ℕ → ℕ) → ℕ → ℕ
with_deadline t when deadline y = if y == t then when else deadline y

-- `run_at`, and whether it wakes the worker.
unfoldable pub run_at : ℕ → ℕ → TimerQueue → TimerQueue × Bool
run_at t when q =
    let d = with_deadline t when q.deadline in
    let h =
      if in_heap q.timer_queue t
      then Heap.update d t q.timer_queue
      else Heap.push d t q.timer_queue in
    (record q { deadline = d; timer_queue = h }, not q.done && is_top h t)

unfoldable pub run_in : ℕ → ℕ → ℕ → TimerQueue → TimerQueue × Bool
unfolding run_at
run_in now t delta q = run_at t (now + delta) q

unfoldable pub running : ℕ → TimerQueue → Bool
running t q = in_heap q.timer_queue t

unfoldable pub cancel : ℕ → TimerQueue → TimerQueue
cancel t q =
    if in_heap q.timer_queue t
    then record q { timer_queue = Heap.remove q.deadline t q.timer_queue }
    else q

-- `!timer_queue_.empty() && (timer_queue_.top().deadline < now)`
abbrev pub is_due : ℕ → TimerQueue → Bool
is_due now q = not (empty q.timer_queue) && ltb (q.deadline (top q.timer_queue)) now

abbrev pub popped : TimerQueue → TimerQueue
popped q = record q { timer_queue = Heap.pop q.deadline q.timer_queue }

-- The loop of `run` and of `timer_worker`: the timers that fire, in order, and the queue.
pub run_loop : (ℕ → TimerQueue → TimerQueue) → ℕ → ℕ → TimerQueue → List ℕ × TimerQueue
run_loop fire zero now q = ([], q)
run_loop fire (suc f) now q = elim (is_due now q) [
  | false ↦ ([], q)
  | true ↦
      let t = top q.timer_queue in
      let (ts, q') = run_loop fire f now (fire t (popped q)) in (t ∷ ts, q')
]

unfoldable pub run : (ℕ → TimerQueue → TimerQueue) → ℕ → ℕ → TimerQueue → List ℕ × TimerQueue
run fire fuel now q = run_loop fire fuel now q

unfoldable pub start : TimerQueue → TimerQueue
start q = if q.done then record q { done = false } else q

unfoldable pub stop : TimerQueue → TimerQueue
stop q = if not q.done then record q { done = true } else q

-- One round of `timer_worker`, with how long it sleeps then: until a signal, or for a time.
unfoldable pub worker_round :
    (ℕ → TimerQueue → TimerQueue) → ℕ → ℕ → TimerQueue → List ℕ × TimerQueue × Option ℕ
worker_round fire fuel now q =
    let (ts, q') = run_loop fire fuel now q in
    let rest =
      if empty q'.timer_queue then none else some (q'.deadline (top q'.timer_queue) - now) in
    (ts, q', rest)
