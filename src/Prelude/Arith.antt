-- ===== src/Prelude/Arith.antt =====
-- Remainders by a size, for arrays indexed by numbers that wrap.
use Prim.Native.Nat.{ℕ, ◌+◌, ◌-◌, ◌%◌, ◌<◌, ◌∣◌}
use mathlib.Core.Path.{◌∙◌, sym}
use mathlib.Core.Logic.{◌≢◌}
use native.Mathlib.Nat.{mod-lt, mod-eq_of_lt, mod-eq-sub-mod, mod-add-mod, mod-mod_of_dvd}
use native.Mathlib.Decide.{dec_lt}
use native.Mathlib.Omega.{arith}

-- Less than one turn round a ring of `n` places does not come back to the start.
pub add-mod-ne : (n h d : ℕ) → h < n → 0 < d → d < n → (h + d) % n ≢ h
add-mod-ne n h d hh h0 hd = elim (dec_lt (h + d) n) [
  | yes p ↦ omega (arith, mod-eq_of_lt p)
  | no p ↦ omega (
    arith,
    mod-eq-sub-mod {n = h + d} {m = n} (omega arith),
    mod-eq_of_lt {n = h + d - n} {m = n} (omega arith),
  )
]

pub mod_distinct : (n a d : ℕ) → 0 < d → d < n → (a + d) % n ≢ a % n
mod_distinct n a d h0 hd e =
    add-mod-ne n (a % n) d (mod-lt a (omega arith)) h0 hd (mod-add-mod a n d ∙ e)

-- The places of two numbers that lie less than `n` apart differ, also where they wrap at a
-- multiple `m` of `n`.
pub wrap_distinct : (m n a d : ℕ) → n ∣ m → 0 < d → d < n → (a + d) % m % n ≢ a % n
wrap_distinct m n a d k h0 hd e = mod_distinct n a d h0 hd (sym (mod-mod_of_dvd n (a + d) k) ∙ e)
