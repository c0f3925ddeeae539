-- ===== src/Heap/Tests.antt =====
-- A heap of three elements, each its own key but for one that has changed.
use dragonradio.Prelude.{
  ℕ, ◌≤◌, ◌≡◌, refl, Bool, true, false, not, ◌&&◌, ◌||◌, [], ◌∷◌, arith, if◌then◌else◌, ◌==◌,
}
use dragonradio.Heap
use dragonradio.Heap.{
  Heap, new_heap, up_heap, up_loop, down_heap, down_loop, update_heap, remove_heap, detach, size,
  top, swap_heap,
}
use dragonradio.Heap.Push.{push-HeapOf}
use dragonradio.Heap.Ops.{HeapOf, pop-HeapOf}

abbrev own : ℕ → ℕ
own x = x

abbrev key' : ℕ → ℕ
key' x = if x == 4 then 20 else x

abbrev three : Heap
three = Heap.push own 4 (Heap.push own 9 (Heap.push own 7 new_heap))

abbrev ones : ℕ → Bool
ones y = ((false || y == 7) || y == 9) || y == 4

new_heap-HeapOf : (key : ℕ → ℕ) → HeapOf key new_heap (λ _. false)
new_heap-HeapOf key = record {
  is_heap = record {
    linked = record { forth = λ k h. absurd (omega arith); back = λ x i e. absurd (cc e) };
    ordered = λ c p q. absurd (omega arith);
  };
  members = λ x. refl;
}

three-HeapOf : HeapOf own three ones
three-HeapOf =
    push-HeapOf own (Heap.push own 9 (Heap.push own 7 new_heap)) (λ y. (false || y == 7) || y == 9)
      4
      (push-HeapOf own (Heap.push own 7 new_heap) (λ y. false || y == 7) 9
        (push-HeapOf own new_heap (λ _. false) 7 (new_heap-HeapOf own) refl) refl)
      refl

three-order : three.c ≡ 4 ∷ 9 ∷ 7 ∷ []
unfolding Heap.push up_heap up_loop swap_heap
three-order = refl

three-pop : (Heap.pop own three).c ≡ 7 ∷ 9 ∷ []
unfolding Heap.push Heap.pop up_heap up_loop down_heap down_loop swap_heap detach
three-pop = refl

pop-HeapOf_example :
    (ones (top three) ≡ true)
    × ((y : ℕ) → ones y ≡ true → own (top three) ≤ own y)
    × HeapOf own (Heap.pop own three) (λ y. ones y && not (y == top three))
unfolding Heap.push up_heap up_loop swap_heap
pop-HeapOf_example = pop-HeapOf own three ones three-HeapOf (omega arith)
