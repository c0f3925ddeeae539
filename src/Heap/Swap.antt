-- ===== src/Heap/Swap.antt =====
-- Swapping two elements of the heap, and the indices that the elements carry.
use dragonradio.Prelude.{
  ℕ, zero, suc, ◌<◌, ◌≡◌, ◌≢◌, refl, sym, ◌∙◌, ap, some, List, [], ◌∷◌, arith, length, get_or, set,
  length-set, if◌then◌else◌, ◌==◌,
}
use dragonradio.Heap.{Heap, at, size, in_heap, swap_heap}

-- Each element of the heap carries the index at which it stands, and no other carries one.
pub record Linked (h : Heap) : Type 0 where
  pub forth : (i : ℕ) → i < size h → h.heap_index (at h i) ≡ some i
  pub back : (x i : ℕ) → h.heap_index x ≡ some i → (i < size h) × (at h i ≡ x)

pub at-ne : (h : Heap) (i j : ℕ) → Linked h → i < size h → j < size h → i ≢ j → at h i ≢ at h j
at-ne h i j l hi hj n e = n (some-inj (sym (l.forth i hi) ∙ ap h.heap_index e ∙ l.forth j hj))
  where
    some-inj : {a b : ℕ} → some a ≡ some b → a ≡ b
    some-inj q = cc q

get_or-set :
    (xs : List ℕ) (i k v : ℕ)
    → i < length xs
    → get_or (set xs i v) k 0 ≡ (if k == i then v else get_or xs k 0)
get_or-set [] i k v h = absurd (omega arith)
get_or-set (x ∷ xs) zero zero v h = refl
get_or-set (x ∷ xs) zero (suc k) v h = ground arith
get_or-set (x ∷ xs) (suc i) zero v h = ground arith
get_or-set (x ∷ xs) (suc i) (suc k) v h = ground (arith, get_or-set xs i k v)

module _ (h : Heap) (i j : ℕ) where
  pub size-swap_heap : size (swap_heap i j h) ≡ size h
  unfolding swap_heap
  size-swap_heap =
      ground (arith, length-set (set h.c i (at h j)) j (at h i), length-set h.c i (at h j))

  pub at-swap_heap :
      (k : ℕ)
      → i < size h
      → j < size h
      → at (swap_heap i j h) k ≡ (if k == i then at h j else if k == j then at h i else at h k)
  unfolding swap_heap
  at-swap_heap k hi hj = ground (
    arith,
    get_or-set (set h.c i (at h j)) j k (at h i),
    get_or-set h.c i k (at h j),
    length-set h.c i (at h j),
  )

  pub index-swap_heap :
      (x : ℕ)
      → Linked h
      → i < size h
      → j < size h
      → (swap_heap i j h).heap_index x
        ≡ (if x == at h j then some i else if x == at h i then some j else h.heap_index x)
  unfolding swap_heap
  index-swap_heap x l hi hj = ground (arith, at-ne h i j l hi hj, l.forth i hi, ap h.heap_index)

  pub swap_heap-Linked : Linked h → i < size h → j < size h → Linked (swap_heap i j h)
  swap_heap-Linked l hi hj = record {
    forth = λ k hk. ground (
      arith,
      size-swap_heap,
      at-swap_heap k,
      index-swap_heap (at (swap_heap i j h) k) l,
      l.forth k,
      at-ne h k i l,
      at-ne h k j l,
      at-ne h i j l,
    );
    back = λ x k e. ground (
      arith,
      size-swap_heap,
      at-swap_heap k,
      index-swap_heap x l,
      l.back x k,
      l.forth i,
      l.forth j,
      at-ne h i j l,
    );
  }

  pub in_heap-swap_heap :
      (x : ℕ) → Linked h → i < size h → j < size h → in_heap (swap_heap i j h) x ≡ in_heap h x
  in_heap-swap_heap x l hi hj = ground (arith, index-swap_heap x l, l.forth i, l.forth j)
