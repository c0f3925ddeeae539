-- ===== src/Heap/Up.antt =====
-- `up_heap` restores a heap in which one element may be too small for its place.
use dragonradio.Prelude.{ℕ, zero, suc, ◌≤◌, ◌<◌, inl, inr, refl, ◌&&◌, arith, Bool-cases, ltb}
use dragonradio.Heap.{Heap, size, parent, less, swap_heap, up_loop, up_heap}
use dragonradio.Heap.Swap.{Linked, size-swap_heap, at-swap_heap, swap_heap-Linked}
use dragonradio.Heap.Order.{key_at, TooSmall, Restored, Restored-swap}

module _ (key : ℕ → ℕ) where
  swap_heap-TooSmall :
      (h : Heap) (i : ℕ)
      → TooSmall key h i
      → 0 < i
      → i < size h
      → key_at key h i < key_at key h (parent i)
      → TooSmall key (swap_heap i (parent i) h) (parent i)
  swap_heap-TooSmall h i v pos hi below =
      let size_eq = size-swap_heap h i (parent i) in
      let ats = at-swap_heap h i (parent i) in
      record {
        edges = λ c p q r.
            ground (arith, ats c, ats (parent c), v.edges c, v.bridged c, v.edges (parent i));
        bridged = λ c p q r t.
            ground (arith, ats c, ats (parent (parent i)), v.edges c, v.edges (parent i));
      }

  up_loop-Restored :
      (f i : ℕ) (h : Heap)
      → i ≤ f
      → i < size h
      → Linked h
      → TooSmall key h i
      → Restored key h (up_loop key f i h)
  unfolding up_loop
  up_loop-Restored zero i h k hi l v = record {
    is_heap = record { linked = l; ordered = λ c p q. v.edges c p q (omega arith) };
    same_size = refl;
    same = λ x. refl;
  }
  up_loop-Restored (suc f) i h k hi l v = elim (Bool-cases (ltb 0 i && less key h i (parent i))) [
    | inl e ↦
        rw (e, up_loop)
          (Restored-swap key h i (parent i) (up_loop key f (parent i) (swap_heap i (parent i) h)) l
            hi (omega arith)
            (up_loop-Restored f (parent i) (swap_heap i (parent i) h) (ground arith)
              (omega (arith, size-swap_heap h i (parent i)))
              (swap_heap-Linked h i (parent i) l hi (omega arith))
              (swap_heap-TooSmall h i v (ground arith) hi (ground arith))))
    | inr e ↦
        rw (e, up_loop)
          (record {
            is_heap = record { linked = l; ordered = λ c p q. ground (arith, v.edges c p q) };
            same_size = refl;
            same = λ x. refl;
          })
  ]

  pub up_heap-Restored :
      (i : ℕ) (h : Heap)
      → i < size h
      → Linked h
      → TooSmall key h i
      → Restored key h (up_heap key i h)
  unfolding up_heap
  up_heap-Restored i h hi l v = up_loop-Restored i i h (omega arith) hi l v
