-- ===== src/TimerQueue/Pending.antt =====
-- The timer queue against the set of the timers that are running.
use dragonradio.Prelude.{
  ℕ, ◌≡◌, ◌≢◌, inl, inr, sym, ◌∙◌, Bool, true, false, not, ◌&&◌, ◌||◌, arith, Bool-cases, ◌==◌,
}
use dragonradio.Heap
use dragonradio.Heap.{in_heap, is_top}
use dragonradio.Heap.Push.{push-HeapOf}
use dragonradio.Heap.Ops.{HeapOf, update-HeapOf, remove-HeapOf, rekey, resized}
use dragonradio.TimerQueue.{TimerQueue, with_deadline, run_at, cancel}

-- The timers of the set `s` are running, each till its deadline.
abbrev pub Pending : TimerQueue → (ℕ → Bool) → Type 0
Pending q s = HeapOf q.deadline q.timer_queue s

other : (t when : ℕ) (d : ℕ → ℕ) (y : ℕ) → y ≢ t → with_deadline t when d y ≡ d y
other t when d y n = ground arith

already : (s : ℕ → Bool) (t y : ℕ) → s t ≡ true → s y ≡ (s y || y == t)
already s t y e = ground arith

missing : (s : ℕ → Bool) (t y : ℕ) → s t ≡ false → s y ≡ (s y && not (y == t))
missing s t y e = ground arith

scheduled :
    (q : TimerQueue) (s : ℕ → Bool) (t when : ℕ)
    → Pending q s
    → Pending (run_at t when q).0 (λ y. s y || y == t)
unfolding run_at
scheduled q s t when v =
    let d = with_deadline t when q.deadline in
    let h = q.timer_queue in
    elim (Bool-cases (in_heap h t)) [
      | inl e ↦
          let i = sym (v.members t) ∙ e in
          rw e (
            resized d (Heap.update d t h) s (λ y. s y || y == t) (λ y. already s t y i)
              (update-HeapOf q.deadline d h s t (other t when q.deadline) v i))
      | inr e ↦
          let o = sym (v.members t) ∙ e in
          rw e (push-HeapOf d h s t (rekey q.deadline d h s t (other t when q.deadline) o v) o)
    ]

-- `run_at` sets the deadline of one timer, which is running then, also if it was running before, and
-- leaves the other timers and their deadlines alone.
pub run_at-Pending :
    (q : TimerQueue) (s : ℕ → Bool) (t when : ℕ)
    → Pending q s
    → Pending (run_at t when q).0 (λ y. s y || y == t)
      × ((run_at t when q).0.deadline t ≡ when)
      × ((y : ℕ) → y ≢ t → (run_at t when q).0.deadline y ≡ q.deadline y)
unfolding run_at
run_at-Pending q s t when v = (scheduled q s t when v, ground arith, other t when q.deadline)

-- `cancel` stops one timer, running or not, and leaves the others.
pub cancel-Pending :
    (q : TimerQueue) (s : ℕ → Bool) (t : ℕ)
    → Pending q s
    → Pending (cancel t q) (λ y. s y && not (y == t))
unfolding cancel
cancel-Pending q s t v = elim (Bool-cases (in_heap q.timer_queue t)) [
  | inl e ↦ rw e (remove-HeapOf q.deadline q.timer_queue s t v)
  | inr e ↦ rw e (
      resized q.deadline q.timer_queue s (λ y. s y && not (y == t))
        (λ y. missing s t y (sym (v.members t) ∙ e)) v)
]
