-- ===== src/RingBuffer.antt =====
-- src/ringbuffer.hh: a ring buffer of 2 ^ LOGN items for one reader and one writer.
pub mod Refine
mod Tests
use dragonradio.Prelude.{
  ℕ, suc, ◌+◌, ◌-◌, ◌%◌, ◌^◌, Bool, true, false, List, get_or, set, replicate, if◌then◌else◌, ◌==◌,
}

-- The indices are `unsigned` and run on past the size; `& MASK` is the remainder by the size.
pub record RingBuffer {ℓ} (A : Type ℓ) : Type ℓ where
  pub items : List A
  pub ridx : ℕ
  pub widx : ℕ

abbrev pub uint_mod : ℕ
uint_mod = 2 ^ 32

-- The constructor, over storage that holds any items.
unfoldable pub new_ring {ℓ} : {A : Type ℓ} → List A → RingBuffer A
new_ring storage = record { items = storage; ridx = 0; widx = 0 }

unfoldable pub clear {ℓ} : {A : Type ℓ} → RingBuffer A → RingBuffer A
clear r = record r { ridx = 0; widx = 0 }

-- `widx_.load() - ridx_.load()`
unfoldable pub size {ℓ} : {A : Type ℓ} → RingBuffer A → ℕ
size r = (r.widx + uint_mod - r.ridx) % uint_mod

unfoldable pub front {ℓ} : {A : Type ℓ} → ℕ → A → RingBuffer A → A
front logn d r = get_or r.items (r.ridx % 2 ^ logn) d

-- `pop` does not test for an empty buffer.
unfoldable pub pop {ℓ} : {A : Type ℓ} → RingBuffer A → RingBuffer A
pop r = record r { ridx = (r.ridx + 1) % uint_mod }

unfoldable pub push {ℓ} : {A : Type ℓ} → ℕ → A → RingBuffer A → Bool × RingBuffer A
unfolding size
push logn val r = if size r == 2 ^ logn then (false, r) else (
  true,
  record r { items = set r.items (r.widx % 2 ^ logn) val; widx = (r.widx + 1) % uint_mod },
)
