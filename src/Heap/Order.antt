-- ===== src/Heap/Order.antt =====
-- The heap order, and what the operations keep.
use dragonradio.Prelude.{
  ℕ, zero, suc, ◌≤◌, ◌<◌, ◌≡◌, ◌≢◌, inl, inr, subst, ◌∙◌, true, arith, Option-cases,
}
use dragonradio.Heap.{Heap, at, size, in_heap, parent, top, swap_heap}
use dragonradio.Heap.Swap.{Linked, size-swap_heap, in_heap-swap_heap}

module _ (key : ℕ → ℕ) where
  abbrev pub key_at : Heap → ℕ → ℕ
  key_at h i = key (at h i)

  -- No element is smaller than its parent.
  abbrev pub IsOrdered : Heap → Type 0
  IsOrdered h = (c : ℕ) → 0 < c → c < size h → key_at h (parent c) ≤ key_at h c

  -- The elements below `i` are not smaller than the one above `i`.
  abbrev pub IsBridged : Heap → ℕ → Type 0
  IsBridged h i =
      (c : ℕ) → 0 < c → c < size h → parent c ≡ i → 0 < i → key_at h (parent i) ≤ key_at h c

  -- Only the element at `i` may be out of order.
  pub record OrderedBut (h : Heap) (i : ℕ) : Type 0 where
    pub edges :
        (c : ℕ) → 0 < c → c < size h → c ≢ i → parent c ≢ i → key_at h (parent c) ≤ key_at h c
    pub bridged : IsBridged h i

  -- The element at `i` may be too small, or too large.
  pub record TooSmall (h : Heap) (i : ℕ) : Type 0 where
    pub edges : (c : ℕ) → 0 < c → c < size h → c ≢ i → key_at h (parent c) ≤ key_at h c
    pub bridged : IsBridged h i

  pub record TooLarge (h : Heap) (i : ℕ) : Type 0 where
    pub edges : (c : ℕ) → 0 < c → c < size h → parent c ≢ i → key_at h (parent c) ≤ key_at h c
    pub bridged : IsBridged h i

  -- A heap: the back references are right and the elements are in order.
  pub record IsHeap (h : Heap) : Type 0 where
    pub linked : Linked h
    pub ordered : IsOrdered h

  root_least :
      (f : ℕ) (h : Heap) (i : ℕ) → IsOrdered h → i < f → i < size h → key_at h 0 ≤ key_at h i
  root_least zero h i o k hi = absurd (omega arith)
  root_least (suc f) h i o k hi = ground (arith, o i, root_least f h (parent i) o)

  -- The element at the top is one of the smallest of the heap.
  pub top-least : (h : Heap) (x : ℕ) → IsHeap h → in_heap h x ≡ true → key (top h) ≤ key x
  top-least h x v e = elim (Option-cases (h.heap_index x)) [
    | inl q ↦ absurd (cc (e, q))
    | inr (i, q) ↦
        let b = v.linked.back x i q in
        subst (λ (t : ℕ). key (top h) ≤ key t) b.1
          (root_least (suc i) h i v.ordered (omega arith) b.0)
  ]

-- `h'` is a heap of the elements of `h`.
pub record Restored (key : ℕ → ℕ) (h h' : Heap) : Type 0 where
  pub is_heap : IsHeap key h'
  pub same_size : size h' ≡ size h
  pub same : (x : ℕ) → in_heap h' x ≡ in_heap h x

pub Restored-swap :
    (key : ℕ → ℕ) (h : Heap) (i j : ℕ) (h' : Heap)
    → Linked h
    → i < size h
    → j < size h
    → Restored key (swap_heap i j h) h'
    → Restored key h h'
Restored-swap key h i j h' l hi hj r = record {
  is_heap = r.is_heap;
  same_size = r.same_size ∙ size-swap_heap h i j;
  same = λ x. r.same x ∙ in_heap-swap_heap h i j x l hi hj;
}
