-- ===== src/TimerQueue/Run.antt =====
-- Which timers fire, and in which order.
use dragonradio.Prelude.{
  ℕ, zero, suc, ◌+◌, ◌-◌, ◌≤◌, ◌<◌, ◌≡◌, inl, inr, refl, sym, ap, ◌∙◌, Bool, true, false, not, ◌&&◌,
  some, List, [], ◌∷◌, arith, Bool-cases, is_some, ◌==◌, leb,
}
use dragonradio.Heap.{size, top, empty}
use dragonradio.Heap.Ops.{pop-HeapOf, size-pop, member_pos, resized}
use dragonradio.Heap.Order.{top-least}
use dragonradio.TimerQueue.{TimerQueue, is_due, popped, run_loop, run, worker_round}
use dragonradio.TimerQueue.Pending.{Pending}

-- What a queue of the timers `s` with the deadlines `d` should fire at `now`: one timer after the
-- other whose deadline has passed, each time one with the earliest deadline, until none is left.
pub data Fires (d : ℕ → ℕ) (now : ℕ) : (ℕ → Bool) → List ℕ → Type 0 where
  done : {s : ℕ → Bool} → ((y : ℕ) → s y ≡ true → now ≤ d y) → Fires d now s []
  fires :
      {s : ℕ → Bool} {t : ℕ} {ts : List ℕ}
      → s t ≡ true
      → d t < now
      → ((y : ℕ) → s y ≡ true → d t ≤ d y)
      → Fires d now (λ y. s y && not (y == t)) ts
      → Fires d now s (t ∷ ts)

-- The timers that stay.
abbrev pub left_over : ℕ → (ℕ → ℕ) → (ℕ → Bool) → ℕ → Bool
left_over now d s y = s y && leb now (d y)

not_due :
    (q : TimerQueue) (s : ℕ → Bool) (now : ℕ)
    → Pending q s
    → is_due now q ≡ false
    → (y : ℕ) → s y ≡ true
    → now ≤ q.deadline y
not_due q s now v e y m =
    let pos = member_pos q.deadline q.timer_queue s y v m in
    let least = top-least q.deadline q.timer_queue y v.is_heap (v.members y ∙ m) in ground arith

all_stay :
    (now : ℕ) (d : ℕ → ℕ) (s : ℕ → Bool) (y : ℕ)
    → (s y ≡ true → now ≤ d y)
    → s y ≡ left_over now d s y
all_stay now d s y h = ground arith

one_less :
    (now : ℕ) (d : ℕ → ℕ) (s : ℕ → Bool) (t y : ℕ)
    → d t < now
    → left_over now d (λ z. s z && not (z == t)) y ≡ left_over now d s y
one_less now d s t y h = ground arith

-- What a run leaves: the timers that are not due, with the deadlines that they had.
pub record Ran (now : ℕ) (q : TimerQueue) (s : ℕ → Bool) (r : List ℕ × TimerQueue) : Type 0 where
  pub fired : Fires q.deadline now s r.0
  pub pending : Pending r.1 (left_over now q.deadline s)
  pub same_deadline : r.1.deadline ≡ q.deadline

run_loop-Ran :
    (fire : ℕ → TimerQueue → TimerQueue) (f now : ℕ) (q : TimerQueue) (s : ℕ → Bool)
    → ((t : ℕ) (q : TimerQueue) → fire t q ≡ q)
    → size q.timer_queue < f
    → Pending q s
    → Ran now q s (run_loop fire f now q)
unfolding run_loop
run_loop-Ran fire zero now q s quiet k v = absurd (omega arith)
run_loop-Ran fire (suc f) now q s quiet k v = elim (Bool-cases (is_due now q)) [
  | inr e ↦
      let stay = not_due q s now v e in
      rw (e, run_loop)
        (record {
          fired = done stay;
          pending =
              resized q.deadline q.timer_queue s (left_over now q.deadline s)
                (λ y. all_stay now q.deadline s y (stay y)) v;
          same_deadline = refl;
        })
  | inl e ↦
      let t = top q.timer_queue in
      let pos : 0 < size q.timer_queue = ground arith in
      let late : q.deadline t < now = ground arith in
      let (m, least, left) = pop-HeapOf q.deadline q.timer_queue s v pos in
      let ih =
        run_loop-Ran fire f now (popped q) (λ y. s y && not (y == t)) quiet
          (omega (arith, size-pop q.deadline q.timer_queue s v pos)) left in
      rw (e, quiet t (popped q), run_loop)
        (record {
          fired = fires m late least ih.fired;
          pending =
              let r = run_loop fire f now (popped q) in
              resized r.1.deadline r.1.timer_queue
                (left_over now q.deadline (λ y. s y && not (y == t))) (left_over now q.deadline s)
                (λ y. one_less now q.deadline s t y late) ih.pending;
          same_deadline = ih.same_deadline;
        })
]

-- If the timers that fire leave the queue alone and there are fewer than the fuel says, then `run`
-- fires every timer whose deadline has passed, each once and the earliest first, fires no other, and
-- ends with the other timers running.
pub run-Ran :
    (fire : ℕ → TimerQueue → TimerQueue) (fuel now : ℕ) (q : TimerQueue) (s : ℕ → Bool)
    → ((t : ℕ) (q : TimerQueue) → fire t q ≡ q)
    → size q.timer_queue < fuel
    → Pending q s
    → Ran now q s (run fire fuel now q)
unfolding run
run-Ran fire fuel now q s quiet k v = run_loop-Ran fire fuel now q s quiet k v

-- The timer that the worker sleeps for: running, not due, and as early as any that runs.
pub record Next (now k : ℕ) (d : ℕ → ℕ) (s : ℕ → Bool) (t : ℕ) : Type 0 where
  pub runs : left_over now d s t ≡ true
  pub wakes : now + k ≡ d t
  pub earliest : (y : ℕ) → left_over now d s y ≡ true → d t ≤ d y

Next-of :
    (now k : ℕ) (d : ℕ → ℕ) (s : ℕ → Bool) (q : TimerQueue)
    → q.deadline ≡ d
    → Pending q (left_over now d s)
    → empty q.timer_queue ≡ false
    → q.deadline (top q.timer_queue) - now ≡ k
    → Next now k d s (top q.timer_queue)
Next-of now k d s q same v e r =
    let t = top q.timer_queue in
    let m : left_over now d s t ≡ true =
      sym (v.members t) ∙ ap is_some (v.is_heap.linked.forth 0 (ground arith)) in
    let at_t : q.deadline t ≡ d t = ap (λ (f : ℕ → ℕ). f t) same in
    record {
      runs = m;
      wakes = ground arith;
      earliest = λ y n.
          let at_y : q.deadline y ≡ d y = ap (λ (f : ℕ → ℕ). f y) same in
          omega (arith, top-least q.deadline q.timer_queue y v.is_heap (v.members y ∙ n));
    }

-- Under the same conditions the worker, when it sleeps for a time, wakes at the deadline of the timer
-- that is to fire next.
pub worker_round-Next :
    (fire : ℕ → TimerQueue → TimerQueue) (fuel now k : ℕ) (q : TimerQueue) (s : ℕ → Bool)
    → ((t : ℕ) (q : TimerQueue) → fire t q ≡ q)
    → size q.timer_queue < fuel
    → Pending q s
    → (worker_round fire fuel now q).2 ≡ some k
    → (t : ℕ) × Next now k q.deadline s t
unfolding worker_round
worker_round-Next fire fuel now k q s quiet h v =
    let r = run_loop fire fuel now q in
    let ran = run_loop-Ran fire fuel now q s quiet h v in
    elim (Bool-cases (empty r.1.timer_queue)) [
      | inl e ↦ rw e (λ n. absurd (cc n))
      | inr e ↦ rw e (λ n. (
        top r.1.timer_queue,
        Next-of now k q.deadline s r.1 ran.same_deadline ran.pending e (cc n),
      ))
    ]
