-- ===== src/Heap/Ops.antt =====
-- The operations of the heap against the set of its elements.
use dragonradio.Prelude.{
  ℕ, ◌+◌, ◌-◌, ◌≤◌, ◌<◌, ◌≡◌, ◌≢◌, inl, inr, refl, sym, ap, ◌∙◌, subst, Bool, true, false, not,
  ◌&&◌, arith, Bool-cases, Option-cases, ◌==◌, ltb, is_some, ℕ_discrete,
}
use dragonradio.Heap.{
  Heap, at, size, in_heap, detach, parent, less, down_heap, down_loop, pop, update_heap,
  remove_heap, remove, update, top,
}
use dragonradio.Heap.Swap.{Linked, at-ne}
use dragonradio.Heap.Order.{OrderedBut, IsHeap, Restored, top-least}
use dragonradio.Heap.Up.{up_heap-Restored}
use dragonradio.Heap.Down.{down_heap-Restored}
use dragonradio.Heap.Detach.{size-detach, detach-Linked, in_heap-detach, detach-OrderedBut}

-- The heap `h` holds the elements of the set `s`.
pub record HeapOf (key : ℕ → ℕ) (h : Heap) (s : ℕ → Bool) : Type 0 where
  pub is_heap : IsHeap key h
  pub members : (x : ℕ) → in_heap h x ≡ s x

module _ (key : ℕ → ℕ) where
  update_heap-Restored :
      (i : ℕ) (h : Heap)
      → i < size h
      → Linked h
      → OrderedBut key h i
      → Restored key h (update_heap key i h)
  unfolding update_heap
  update_heap-Restored i h hi l v = elim (Bool-cases (ltb 0 i && less key h i (parent i))) [
    | inl e ↦ rw e (
        up_heap-Restored key i h hi l (record {
          edges = λ c p q r. ground (arith, v.edges c, v.bridged c);
          bridged = v.bridged;
        }))
    | inr e ↦ rw e (
        down_heap-Restored key i h hi l
          (record { edges = λ c p q r. ground (arith, v.edges c); bridged = v.bridged }))
  ]

  detached :
      (h h' : Heap) (i n : ℕ) (s : ℕ → Bool)
      → HeapOf key h s
      → size h ≡ n + 1
      → i < size h
      → Restored key (detach i h) h'
      → HeapOf key h' (λ y. s y && not (y == at h i))
  detached h h' i n s v hn hi r = record {
    is_heap = r.is_heap;
    members = λ x.
        r.same x
        ∙ in_heap-detach h i n hn hi x v.is_heap.linked
        ∙ ap (λ (b : Bool). b && not (x == at h i)) (v.members x);
  }

  down_heap_empty : (h : Heap) → size h ≡ 0 → down_heap key 0 h ≡ h
  unfolding down_heap down_loop
  down_heap_empty h e = rw (e, down_loop) refl

  sunk : (h : Heap) → Linked h → OrderedBut key h 0 → Restored key h (down_heap key 0 h)
  sunk h l v = elim (ℕ_discrete (size h) 0) [
    | yes e ↦ rw (down_heap_empty h e) (record {
      is_heap = record { linked = l; ordered = λ c p q. absurd (omega arith) };
      same_size = refl;
      same = λ x. refl;
    })
    | no n ↦
        down_heap-Restored key 0 h (omega arith) l
          (record { edges = λ c p q r. v.edges c p q (omega arith) r; bridged = v.bridged })
  ]

  remove_heap-Restored :
      (h : Heap) (i n : ℕ)
      → IsHeap key h
      → size h ≡ n + 1
      → i < size h
      → Restored key (detach i h) (remove_heap key i h)
  unfolding remove_heap
  remove_heap-Restored h i n v hn hi =
      let l = detach-Linked h i n hn hi v.linked in
      let o = detach-OrderedBut h i n hn hi key v in
      elim (Bool-cases (i == size (detach i h))) [
        | inl e ↦ rw e (record {
          is_heap = record {
            linked = l;
            ordered = λ c p q. o.edges c p q (ground arith) (ground arith);
          };
          same_size = refl;
          same = λ x. refl;
        })
        | inr e ↦
            rw e (update_heap-Restored i (detach i h) (ground (arith, size-detach h i n hn hi)) l o)
      ]

  absent : (s : ℕ → Bool) (x y : ℕ) → s x ≡ false → s y ≡ (s y && not (y == x))
  absent s x y e = ground arith

  -- `pop` of a heap that is not empty takes away the element at the top, which no other precedes,
  -- and leaves a heap of the others.
  pub pop-HeapOf :
      (h : Heap) (s : ℕ → Bool)
      → HeapOf key h s
      → 0 < size h
      → (s (top h) ≡ true)
        × ((y : ℕ) → s y ≡ true → key (top h) ≤ key y)
        × HeapOf key (pop key h) (λ y. s y && not (y == top h))
  unfolding pop
  pop-HeapOf h s v pos =
      let n = size h - 1 in
      let l = v.is_heap.linked in
      (
        sym (v.members (top h)) ∙ ap is_some (l.forth 0 pos),
        λ y e. top-least key h y v.is_heap (v.members y ∙ e),
        detached h (down_heap key 0 (detach 0 h)) 0 n s v (omega arith) pos (
            sunk (detach 0 h) (detach-Linked h 0 n (omega arith) pos l)
              (detach-OrderedBut h 0 n (omega arith) pos key v.is_heap)),
      )

  pub size-pop :
      (h : Heap) (s : ℕ → Bool) → HeapOf key h s → 0 < size h → size (pop key h) + 1 ≡ size h
  unfolding pop
  size-pop h s v pos =
      let n = size h - 1 in
      let r =
        sunk (detach 0 h) (detach-Linked h 0 n (omega arith) pos v.is_heap.linked)
          (detach-OrderedBut h 0 n (omega arith) pos key v.is_heap) in
      omega (arith, r.same_size, size-detach h 0 n (omega arith) pos)

  -- `remove` of any element, in the heap or not, leaves a heap of the others.
  pub remove-HeapOf :
      (h : Heap) (s : ℕ → Bool) (x : ℕ)
      → HeapOf key h s
      → HeapOf key (remove key x h) (λ y. s y && not (y == x))
  unfolding remove
  remove-HeapOf h s x v = elim (Option-cases (h.heap_index x)) [
    | inl e ↦
        rw (e, remove)
          (record {
            is_heap = v.is_heap;
            members = λ y. v.members y ∙ absent s x y (sym (v.members x) ∙ ap is_some e);
          })
    | inr (i, e) ↦
        let b = v.is_heap.linked.back x i e in
        rw (e, remove)
          (subst (λ (t : ℕ). HeapOf key (remove_heap key i h) (λ y. s y && not (y == t))) b.1
            (detached h (remove_heap key i h) i (size h - 1) s v (omega (arith, b.0)) b.0
              (remove_heap-Restored h i (size h - 1) v.is_heap (omega (arith, b.0)) b.0)))
  ]

moved_key :
    (key key' : ℕ → ℕ) (h : Heap) (x i k : ℕ)
    → ((y : ℕ) → y ≢ x → key' y ≡ key y)
    → Linked h
    → i < size h
    → at h i ≡ x
    → k < size h
    → k ≢ i
    → key' (at h k) ≡ key (at h k)
moved_key key key' h x i k same l hi e hk n = same (at h k) λ q. at-ne h k i l hk hi n (q ∙ sym e)

pub member_pos :
    (key : ℕ → ℕ) (h : Heap) (s : ℕ → Bool) (x : ℕ) → HeapOf key h s → s x ≡ true → 0 < size h
member_pos key h s x v e = elim (Option-cases (h.heap_index x)) [
  | inl q ↦ absurd (cc (v.members x, e, q))
  | inr (i, q) ↦ omega (arith, (v.is_heap.linked.back x i q).0)
]

-- Elements outside the heap may change their keys.
pub rekey :
    (key key' : ℕ → ℕ) (h : Heap) (s : ℕ → Bool) (x : ℕ)
    → ((y : ℕ) → y ≢ x → key' y ≡ key y)
    → s x ≡ false
    → HeapOf key h s
    → HeapOf key' h s
rekey key key' h s x same out v =
    let l = v.is_heap.linked in
    let away : (k : ℕ) → k < size h → at h k ≢ x =
      λ k hk e. cc (v.members x, out, e, ap is_some (l.forth k hk)) in
    let moved : (k : ℕ) → k < size h → key' (at h k) ≡ key (at h k) =
      λ k hk. same (at h k) (away k hk) in
    record {
      is_heap = record {
        linked = l;
        ordered = λ c p q. ground (arith, moved c, moved (parent c), v.is_heap.ordered c);
      };
      members = v.members;
    }

pub resized :
    (key : ℕ → ℕ) (h : Heap) (s s' : ℕ → Bool)
    → ((y : ℕ) → s y ≡ s' y)
    → HeapOf key h s
    → HeapOf key h s'
resized key h s s' e v = record { is_heap = v.is_heap; members = λ x. v.members x ∙ e x }

-- When the key of one element has changed, `update` of that element restores the order, and the heap
-- holds the elements that it held.
pub update-HeapOf :
    (key key' : ℕ → ℕ) (h : Heap) (s : ℕ → Bool) (x : ℕ)
    → ((y : ℕ) → y ≢ x → key' y ≡ key y)
    → HeapOf key h s
    → s x ≡ true
    → HeapOf key' (update key' x h) s
unfolding update
update-HeapOf key key' h s x same v e = elim (Option-cases (h.heap_index x)) [
  | inl q ↦ absurd (cc (v.members x, e, q))
  | inr (i, q) ↦
      let l = v.is_heap.linked in
      let b = l.back x i q in
      let moved = λ (k : ℕ). moved_key key key' h x i k same l b.0 b.1 in
      let r = update_heap-Restored key' i h b.0 l (record {
        edges = λ c p t n m. ground (arith, moved c, moved (parent c), v.is_heap.ordered c);
        bridged = λ c p t m u.
            ground (arith, moved c, moved (parent i), v.is_heap.ordered c, v.is_heap.ordered i);
      }) in
      rw (q, update) (record { is_heap = r.is_heap; members = λ y. r.same y ∙ v.members y })
]
