-- ===== src/Heap/Down.antt =====
-- `down_heap` restores a heap in which one element may be too large for its place.
use dragonradio.Prelude.{
  ℕ, zero, suc, ◌+◌, ◌≤◌, ◌<◌, ◌≡◌, ◌⊎◌, inl, inr, refl, sym, subst, ℕ_discrete, false, not, ◌&&◌,
  arith, Bool-cases, ltb,
}
use dragonradio.Heap.{Heap, size, parent, left, less, swap_heap, top_child, down_loop, down_heap}
use dragonradio.Heap.Swap.{Linked, size-swap_heap, at-swap_heap, swap_heap-Linked}
use dragonradio.Heap.Order.{key_at, IsOrdered, TooLarge, Restored, Restored-swap}

module _ (key : ℕ → ℕ) where
  -- `t` is a child of `i`, and none is smaller.
  record LeastChild (h : Heap) (i t : ℕ) : Type 0 where
    inside : t < size h
    above : parent t ≡ i
    below : i < t
    least : (c : ℕ) → 0 < c → c < size h → parent c ≡ i → key_at key h t ≤ key_at key h c

  child : (i c : ℕ) → 0 < c → parent c ≡ i → (c ≡ left i) ⊎ (c ≡ left i + 1)
  child i c h e = ground arith

  top_child-LeastChild :
      (h : Heap) (i : ℕ) → left i < size h → LeastChild h i (top_child key h (left i))
  top_child-LeastChild h i k = record {
    inside = ground arith;
    above = ground arith;
    below = ground arith;
    least = λ c p q r. ground (arith, child i c);
  }

  swap_heap-TooLarge :
      (h : Heap) (i t : ℕ)
      → TooLarge key h i
      → i < size h
      → LeastChild h i t
      → key_at key h t ≤ key_at key h i
      → TooLarge key (swap_heap i t h) t
  swap_heap-TooLarge h i t v hi l ge =
      let size_eq = size-swap_heap h i t in
      let ats = at-swap_heap h i t in
      record {
        edges = λ c p q r. ground (
          arith,
          ats c,
          ats (parent c),
          v.edges c,
          v.bridged t,
          l.least c,
          l.inside,
          l.above,
          l.below,
        );
        bridged = λ c p q r u.
            ground (arith, ats c, ats (parent t), v.edges c, l.inside, l.above, l.below);
      }

  settled :
      (h : Heap) (i : ℕ)
      → TooLarge key h i
      → (ltb (left i) (size h) && not (less key h i (top_child key h (left i)))) ≡ false
      → IsOrdered key h
  settled h i v e c p q = elim (ℕ_discrete (parent c) i) [
    | no n ↦ v.edges c p q n
    | yes s ↦
        let in_range : left i < size h = omega (arith, child i c p s) in
        let least = (top_child-LeastChild h i in_range).least c p q s in
        let first : key_at key h i ≤ key_at key h (top_child key h (left i)) = ground arith in
        subst (λ (t : ℕ). key_at key h t ≤ key_at key h c) (sym s) (omega arith)
  ]

  down_loop-Restored :
      (f i : ℕ) (h : Heap)
      → size h ≤ f + i
      → i < size h
      → Linked h
      → TooLarge key h i
      → Restored key h (down_loop key f i h)
  unfolding down_loop
  down_loop-Restored zero i h k hi l v = absurd (omega arith)
  down_loop-Restored (suc f) i h k hi l v =
      let t = top_child key h (left i) in
      elim (Bool-cases (ltb (left i) (size h) && not (less key h i t))) [
        | inl e ↦
            let s = top_child-LeastChild h i (ground arith) in
            rw (e, down_loop)
              (Restored-swap key h i t (down_loop key f t (swap_heap i t h)) l hi s.inside (
                down_loop-Restored f t (swap_heap i t h)
                  (omega (arith, size-swap_heap h i t, s.below))
                  (omega (arith, size-swap_heap h i t, s.inside))
                  (swap_heap-Linked h i t l hi s.inside)
                  (swap_heap-TooLarge h i t v hi s (ground arith))))
        | inr e ↦
            rw (e, down_loop)
              (record {
                is_heap = record { linked = l; ordered = λ c p q. settled h i v e c p q };
                same_size = refl;
                same = λ x. refl;
              })
      ]

  pub down_heap-Restored :
      (i : ℕ) (h : Heap)
      → i < size h
      → Linked h
      → TooLarge key h i
      → Restored key h (down_heap key i h)
  unfolding down_heap
  down_heap-Restored i h hi l v = down_loop-Restored (size h) i h (omega arith) hi l v
