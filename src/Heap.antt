-- ===== src/Heap.antt =====
-- src/heap.hh: a binary heap of references to elements, each of which carries its own index. An
-- element is a number that names it, `heap_index` gives each element's index, `none` standing for the
-- largest `size_type`. The comparison `value_compare` is that of a key.
pub mod Swap
pub mod Order
pub mod Up
pub mod Down
pub mod Detach
pub mod Ops
pub mod Push
mod Tests
use dragonradio.Prelude.{
  ℕ, zero, suc, ◌+◌, ◌-◌, ◌*◌, ◌/◌, Bool, true, false, not, ◌&&◌, ◌||◌, Option, none, some, List,
  [], ◌∷◌, ◌++◌, length, get_or, set, take, if◌then◌else◌, ◌==◌, ltb, is_some,
}

pub record Heap : Type 0 where
  pub c : List ℕ
  pub heap_index : ℕ → Option ℕ

-- No element is in the heap.
abbrev pub new_heap : Heap
new_heap = record { c = []; heap_index = λ _. none }

abbrev pub at : Heap → ℕ → ℕ
at h i = get_or h.c i 0

abbrev pub size : Heap → ℕ
size h = length h.c

abbrev pub in_heap : Heap → ℕ → Bool
in_heap h x = is_some (h.heap_index x)

-- `x.heap_index = v`
abbrev pub assign : ℕ → Option ℕ → (ℕ → Option ℕ) → ℕ → Option ℕ
assign x v f y = if y == x then v else f y

abbrev pub parent : ℕ → ℕ
parent i = (i - 1) / 2

abbrev pub left : ℕ → ℕ
left i = 2 * i + 1

unfoldable pub swap_heap : ℕ → ℕ → Heap → Heap
swap_heap i j h = if i == j then h else record {
  c = set (set h.c i (at h j)) j (at h i);
  heap_index = assign (at h i) (some j) (assign (at h j) (some i) h.heap_index);
}

-- `pop` and `remove_heap` up to `c.pop_back()`: the element at the index leaves the heap and the last
-- one takes its place.
unfoldable pub detach : ℕ → Heap → Heap
detach i h =
    let s = swap_heap i (size h - 1) h in
    record { c = take (size h - 1) s.c; heap_index = assign (at s (size h - 1)) none s.heap_index }

-- `is_top`
unfoldable pub is_top : Heap → ℕ → Bool
is_top h x = elim (h.heap_index x) [ none ↦ false | some i ↦ i == 0 ]

module _ (key : ℕ → ℕ) where
  -- `value_compare()(c[i], c[j])`
  abbrev pub less : Heap → ℕ → ℕ → Bool
  less h i j = ltb (key (at h i)) (key (at h j))

  unfoldable pub up_loop : ℕ → ℕ → Heap → Heap
  up_loop zero i h = h
  up_loop (suc f) i h = elim (ltb 0 i && less h i (parent i)) [
    | false ↦ h
    | true ↦ up_loop f (parent i) (swap_heap i (parent i) h)
  ]

  -- `up_heap`; the loop makes at most as many rounds as the index says.
  unfoldable pub up_heap : ℕ → Heap → Heap
  up_heap i h = up_loop i i h

  abbrev pub top_child : Heap → ℕ → ℕ
  top_child h child = if child + 1 == size h || less h child (child + 1) then child else child + 1

  unfoldable pub down_loop : ℕ → ℕ → Heap → Heap
  down_loop zero i h = h
  down_loop (suc f) i h = elim (ltb (left i) (size h) && not (less h i (top_child h (left i)))) [
    | false ↦ h
    | true ↦ down_loop f (top_child h (left i)) (swap_heap i (top_child h (left i)) h)
  ]

  -- `down_heap`; each round at least doubles the index, so the size is more rounds than it makes.
  unfoldable pub down_heap : ℕ → Heap → Heap
  down_heap i h = down_loop (size h) i h

  unfoldable pub push : ℕ → Heap → Heap
  push x h =
      up_heap (size h)
        (record { c = h.c ++ x ∷ []; heap_index = assign x (some (size h)) h.heap_index })

  unfoldable pub pop : Heap → Heap
  pop h = down_heap 0 (detach 0 h)

  unfoldable pub update_heap : ℕ → Heap → Heap
  update_heap i h = if ltb 0 i && less h i (parent i) then up_heap i h else down_heap i h

  unfoldable pub remove_heap : ℕ → Heap → Heap
  remove_heap i h = if i == size (detach i h) then detach i h else update_heap i (detach i h)

  -- `remove` and `update` of an element; without an index they do nothing.
  unfoldable pub remove : ℕ → Heap → Heap
  remove x h = elim (h.heap_index x) [ none ↦ h | some i ↦ remove_heap i h ]

  unfoldable pub update : ℕ → Heap → Heap
  update x h = elim (h.heap_index x) [ none ↦ h | some i ↦ update_heap i h ]

-- `top`, of a heap that is not empty.
abbrev pub top : Heap → ℕ
top h = at h 0

abbrev pub empty : Heap → Bool
empty h = size h == 0
