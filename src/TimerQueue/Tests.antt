-- ===== src/TimerQueue/Tests.antt =====
-- Three timers, two of which are due.
use dragonradio.Prelude.{ℕ, ◌≡◌, refl, Bool, false, ◌||◌, some, [], ◌∷◌, arith, ◌==◌}
use dragonradio.Heap
use dragonradio.Heap.{
  Heap, new_heap, up_heap, up_loop, down_heap, down_loop, detach, size, swap_heap,
}
use dragonradio.TimerQueue.{TimerQueue, new_timer_queue, run_at, run, run_loop, worker_round}
use dragonradio.TimerQueue.Pending.{Pending, run_at-Pending}
use dragonradio.TimerQueue.Run.{Ran, run-Ran}

abbrev nothing : ℕ → TimerQueue → TimerQueue
nothing t q = q

abbrev fresh : TimerQueue
fresh = new_timer_queue (λ _. 0)

abbrev three : TimerQueue
three = (run_at 3 50 (run_at 2 10 (run_at 1 30 fresh).0).0).0

abbrev ones : ℕ → Bool
ones y = ((false || y == 1) || y == 2) || y == 3

fresh-Pending : Pending fresh (λ _. false)
unfolding new_timer_queue
fresh-Pending = record {
  is_heap = record {
    linked = record { forth = λ k h. absurd (omega arith); back = λ x i e. absurd (cc e) };
    ordered = λ c p q. absurd (omega arith);
  };
  members = λ x. refl;
}

three-Pending : Pending three ones
three-Pending =
    (run_at-Pending (run_at 2 10 (run_at 1 30 fresh).0).0 (λ y. (false || y == 1) || y == 2) 3 50
      (run_at-Pending (run_at 1 30 fresh).0 (λ y. false || y == 1) 2 10
        (run_at-Pending fresh (λ _. false) 1 30 fresh-Pending).0).0).0

three-size : size three.timer_queue ≡ 3
unfolding run_at new_timer_queue Heap.push Heap.update up_heap up_loop swap_heap
three-size = refl

-- Timer 2 fires before timer 1, and timer 3 does not.
run-three : (run nothing 4 40 three).0 ≡ 2 ∷ 1 ∷ []
unfolding run run_loop run_at new_timer_queue Heap.push Heap.update Heap.pop up_heap up_loop
    down_heap down_loop detach swap_heap
run-three = refl

run-Ran_example : Ran 40 three ones (run nothing 4 40 three)
run-Ran_example =
    run-Ran nothing 4 40 three ones (λ t q. refl) (omega (arith, three-size)) three-Pending

sleep-three : (worker_round nothing 4 40 three).2 ≡ some 10
unfolding worker_round run_loop run_at new_timer_queue Heap.push Heap.update Heap.pop up_heap
    up_loop down_heap down_loop detach swap_heap
sleep-three = refl
