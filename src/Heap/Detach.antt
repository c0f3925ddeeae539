-- ===== src/Heap/Detach.antt =====
-- The heap after the element at an index has left it.
use dragonradio.Prelude.{
  ℕ, ◌+◌, ◌-◌, ◌<◌, ◌≡◌, ◌∙◌, not, ◌&&◌, none, some, arith, length-take, get_or-take, if◌then◌else◌,
  ◌==◌,
}
use dragonradio.Heap.{Heap, at, size, in_heap, swap_heap, detach, parent}
use dragonradio.Heap.Swap.{Linked, size-swap_heap, at-swap_heap, index-swap_heap, at-ne}
use dragonradio.Heap.Order.{OrderedBut, IsHeap}

module _ (h : Heap) (i n : ℕ) (hn : size h ≡ n + 1) (hi : i < size h) where
  pub size-detach : size (detach i h) ≡ n
  unfolding detach
  size-detach = omega (
    arith,
    length-take (size h - 1) (swap_heap i (size h - 1) h).c,
    size-swap_heap h i (size h - 1),
  )

  pub at-detach : (k : ℕ) → k < n → at (detach i h) k ≡ (if k == i then at h n else at h k)
  unfolding detach
  at-detach k hk =
      let e : size h - 1 ≡ n = omega arith in
      rw e (
        get_or-take n (swap_heap i n h).c k 0 hk
        ∙ at-swap_heap h i n k hi (omega arith)
        ∙ ground arith)

  index-detach :
      (x : ℕ)
      → Linked h
      → (detach i h).heap_index x
        ≡ (if x == at h i then none else if x == at h n then some i else h.heap_index x)
  unfolding detach
  index-detach x l =
      let e : size h - 1 ≡ n = omega arith in
      rw e (ground (arith, index-swap_heap h i n x l, at-swap_heap h i n n))

  pub detach-Linked : Linked h → Linked (detach i h)
  detach-Linked l = record {
    forth = λ k hk. ground (
      arith,
      size-detach,
      at-detach k,
      index-detach (at (detach i h) k) l,
      l.forth k,
      at-ne h k i l,
      at-ne h k n l,
      at-ne h n i l,
    );
    back = λ x k e. ground (
      arith,
      size-detach,
      at-detach k,
      index-detach x l,
      l.back x k,
      l.forth i,
      l.forth n,
      at-ne h i n l,
    );
  }

  pub in_heap-detach :
      (x : ℕ) → Linked h → in_heap (detach i h) x ≡ (in_heap h x && not (x == at h i))
  in_heap-detach x l = ground (arith, index-detach x l, l.forth i, l.forth n)

  pub detach-OrderedBut : (key : ℕ → ℕ) → IsHeap key h → OrderedBut key (detach i h) i
  detach-OrderedBut key v = record {
    edges =
        λ c p q r t. ground (arith, size-detach, at-detach c, at-detach (parent c), v.ordered c);
    bridged = λ c p q r t.
        ground (arith, size-detach, at-detach c, at-detach (parent i), v.ordered c, v.ordered i);
  }
