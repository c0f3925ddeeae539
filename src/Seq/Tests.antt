-- ===== src/Seq/Tests.antt =====
-- The circular order where the numbers wrap.
use dragonradio.Prelude.{◌≡◌, refl, true, arith, ltb, leb}
use dragonradio.Seq.{lt, le, gt, ge, add, incr, decr}
use dragonradio.Seq.Order.{window_order}

wraps : lt 65535 (incr 65535) ≡ true
unfolding lt
wraps = refl

decr_wraps : gt 0 (decr 0) ≡ true
unfolding gt
decr_wraps = refl

window_order_example :
    (lt (add 65530 3) (add 65530 10) ≡ ltb 3 10)
    × (le (add 65530 3) (add 65530 10) ≡ leb 3 10)
    × (gt (add 65530 3) (add 65530 10) ≡ ltb 10 3)
    × (ge (add 65530 3) (add 65530 10) ≡ leb 10 3)
window_order_example = window_order 65530 3 10 (omega arith) (omega arith) (omega arith)
