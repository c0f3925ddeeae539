-- ===== src/SafeQueue/Tests.antt =====
-- A queue of numbers at work.
use dragonradio.Prelude.{ℕ, ◌≡◌, refl, false, some, [], ◌∷◌}
use dragonradio.SafeQueue.{SafeQueue, new_queue, push, push_front, pop, reset, empty}
use dragonradio.SafeQueue.Fifo.{push_all, pop_all, pop_all-push_all}

abbrev two : SafeQueue ℕ
two = record { done = false; q = 1 ∷ 2 ∷ [] }

pop_all-push_all_example :
    pop_all 4 (push_all (3 ∷ 4 ∷ []) two) ≡ (1 ∷ 2 ∷ 3 ∷ 4 ∷ [], record { done = false; q = [] })
pop_all-push_all_example = pop_all-push_all (3 ∷ 4 ∷ []) two

jumps_the_queue : (pop (push_front 0 (push 3 two))).0 ≡ some 0
unfolding push_front push pop
jumps_the_queue = refl

-- `reset` leaves the elements where they are.
reset_keeps : empty {A = ℕ} (reset (push 1 new_queue)) ≡ false
unfolding empty reset push new_queue
reset_keeps = refl
