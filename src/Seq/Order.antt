-- ===== src/Seq/Order.antt =====
-- The circular order of src/Seq.hh, against the order of the offsets from a common base.
use dragonradio.Prelude.{ℕ, ◌<◌, ◌≡◌, arith, ltb, leb}
use dragonradio.Seq.{diff, lt, le, gt, ge, add}

pub add-lt : (a n : ℕ) → add a n < 65536
add-lt a n = omega arith

pub diff-add : (a n : ℕ) → a < 65536 → n < 65536 → diff (add a n) a ≡ n
diff-add a n ha hn = omega arith

pub add-diff : (a b : ℕ) → a < 65536 → b < 65536 → add a (diff b a) ≡ b
add-diff a b ha hb = omega arith

-- Of two numbers at offsets of less than half the range from a common base, `<` and its companions
-- give the order of the offsets, also where the numbers themselves wrap in between.
pub window_order :
    (u i j : ℕ)
    → u < 65536
    → i < 32768
    → j < 32768
    → (lt (add u i) (add u j) ≡ ltb i j)
      × (le (add u i) (add u j) ≡ leb i j)
      × (gt (add u i) (add u j) ≡ ltb j i)
      × (ge (add u i) (add u j) ≡ leb j i)
unfolding lt le gt ge
window_order u i j hu hi hj = (ground arith, ground arith, ground arith, ground arith)
