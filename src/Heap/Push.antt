-- ===== src/Heap/Push.antt =====
-- `push` against the set of the heap's elements.
use dragonradio.Prelude.{
  ℕ, ◌+◌, ◌<◌, ◌≡◌, ◌∙◌, Bool, false, ◌||◌, some, [], ◌∷◌, ◌++◌, arith, length-append,
  get_or-append, get_or-append_last, if◌then◌else◌, ◌==◌, ==_refl, ℕ_discrete,
}
use dragonradio.Heap.{Heap, at, size, in_heap, assign, parent, push}
use dragonradio.Heap.Swap.{Linked}
use dragonradio.Heap.Order.{TooSmall, IsHeap}
use dragonradio.Heap.Up.{up_heap-Restored}
use dragonradio.Heap.Ops.{HeapOf}

module _ (key : ℕ → ℕ) where
  -- `push` before it moves the new element up.
  abbrev appended : Heap → ℕ → Heap
  appended h x = record { c = h.c ++ x ∷ []; heap_index = assign x (some (size h)) h.heap_index }

  at-appended :
      (h : Heap) (x k : ℕ)
      → k < size h + 1
      → at (appended h x) k ≡ (if k == size h then x else at h k)
  at-appended h x k hk = elim (ℕ_discrete k (size h)) [
    | yes e ↦ rw (e, ==_refl (size h)) (get_or-append_last h.c x 0)
    | no n ↦ ground (arith, get_or-append h.c (x ∷ []) k 0)
  ]

  appended-Linked : (h : Heap) (x : ℕ) → Linked h → in_heap h x ≡ false → Linked (appended h x)
  appended-Linked h x l out = record {
    forth = λ k hk. ground (arith, length-append h.c (x ∷ []), at-appended h x k, l.forth k);
    back = λ y k e. ground (arith, length-append h.c (x ∷ []), at-appended h x k, l.back y k);
  }

  appended-TooSmall : (h : Heap) (x : ℕ) → IsHeap key h → TooSmall key (appended h x) (size h)
  appended-TooSmall h x v = record {
    edges = λ c p q r. ground (
      arith,
      length-append h.c (x ∷ []),
      at-appended h x c,
      at-appended h x (parent c),
      v.ordered c,
    );
    bridged = λ c p q r t. absurd (omega (arith, length-append h.c (x ∷ [])));
  }

  -- `push` of an element that is not in the heap gives a heap with that element added.
  pub push-HeapOf :
      (h : Heap) (s : ℕ → Bool) (x : ℕ)
      → HeapOf key h s
      → s x ≡ false
      → HeapOf key (push key x h) (λ y. s y || y == x)
  unfolding push
  push-HeapOf h s x v new =
      let out = v.members x ∙ new in
      let h' = appended h x in
      let r =
        up_heap-Restored key (size h) h' (omega (arith, length-append h.c (x ∷ [])))
          (appended-Linked h x v.is_heap.linked out) (appended-TooSmall h x v.is_heap) in
      record { is_heap = r.is_heap; members = λ y. r.same y ∙ ground (arith, v.members y) }
