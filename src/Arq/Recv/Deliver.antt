-- ===== src/Arq/Recv/Deliver.antt =====
-- What `advanceRecvWindow` delivers: packets of the positions that it leaves behind, in order.
use dragonradio.Prelude.{
  ℕ, zero, suc, ◌+◌, ◌%◌, ◌≤◌, ◌<◌, ◌≡◌, inl, inr, refl, ◌∙◌, true, arith, Bool-cases,
}
use dragonradio.Seq.{Seq, diff, lt, gt, add, sub, incr}
use dragonradio.Arq.Recv.{cleared, RecvWindow, entry, put, forget_loop, advance_recv_window}
use dragonradio.Arq.Recv.Filed.{Filed, release-Filed, head-At}
use dragonradio.Arq.Recv.Loops.{IsValid, lt_of_diff}
use dragonradio.Arq.Recv.Advance.{
  Jumps, forget_loop-stop, advance_recv_window-IsValid, advance_recv_window_frame, max-near,
  start-near,
}
use dragonradio.Arq.Recv.Drain.{Moved, Delivers, done, entry-Delivers}

forget_loop-Delivers :
    (f u v seq forget : ℕ) (w : RecvWindow)
    → seq ≡ u % 65536
    → forget < 65536
    → diff forget seq ≡ f
    → f < 32768
    → u + f ≤ v
    → Filed seq w.win w.max w.entries
    → Delivers v u (forget_loop f seq forget w).1
unfolding forget_loop
forget_loop-Delivers zero u v seq forget w hu hn e h b d = done (omega arith)
forget_loop-Delivers (suc f) u v seq forget w hu hn e h b d =
    rw (lt_of_diff seq forget f d.ack_lt hn e h, forget_loop)
      (entry-Delivers u v w.max seq (entry w seq) _ hu (head-At d) (
        forget_loop-Delivers f (suc u) v (incr seq) forget (put w seq cleared) (omega arith) hn
          (omega (arith, d.ack_lt)) (omega arith) (omega arith)
          (release-Filed seq w.win w.max w.entries d)))

gap-le :
    (a n mx s : ℕ)
    → a < 65536
    → mx < 65536
    → s < 65536
    → n < 32768
    → gt (sub (add s 1) n) mx ≡ true
    → lt a (add mx 1) ≡ true
    → diff (add mx 1) a < 32768
    → diff (sub (add s 1) n) a < 32768
    → diff (add mx 1) a ≤ diff (sub (add s 1) n) a
unfolding lt gt
gap-le a n mx s ha hm hs hn g l h k = ground arith

module _ (s : Seq) (w : RecvWindow) (u : ℕ) (v : IsValid w) (j : Jumps s w)
    (h : w.ack ≡ u % 65536) where
  abbrev steps : ℕ
  steps = diff (sub (add s 1) w.win) w.ack

  advance-Delivers : Delivers (u + steps) u (advance_recv_window s w).1
  unfolding advance_recv_window
  advance-Delivers = elim (Bool-cases (gt (sub (add s 1) w.win) w.max)) [
    | inr g ↦
        rw (g, advance_recv_window)
          (forget_loop-Delivers steps u (u + steps) w.ack (sub (add s 1) w.win) w h (omega arith)
            refl (start-near s w v j) (omega arith) v.filed)
    | inl g ↦ elim (Bool-cases (lt w.ack (add w.max 1))) [
      | inl c ↦
          let near : diff (add w.max 1) w.ack < 32768 =
            max-near w.ack w.win w.max s v.filed.ack_lt v.filed.max_lt j.s_lt v.filed.small
              v.filed.pos v.bounded j.past j.near j.late c in
          let short : diff (add w.max 1) w.ack ≤ steps =
            gap-le w.ack w.win w.max s v.filed.ack_lt v.filed.max_lt j.s_lt v.filed.small g c near
              (start-near s w v j) in
          rw (g, advance_recv_window)
            (forget_loop-Delivers (diff (add w.max 1) w.ack) u (u + steps) w.ack (add w.max 1) w h
              (omega arith) refl near (omega arith) v.filed)
      | inr c ↦
          rw (g, advance_recv_window)
            (rw (forget_loop-stop (diff (add w.max 1) w.ack) w.ack (add w.max 1) w c)
              (done (omega arith)))
    ]
  ]

  pub advance_recv_window-Moved : Moved steps u w (advance_recv_window s w)
  advance_recv_window-Moved = record {
    valid = advance_recv_window-IsValid s w v j;
    same_win = (advance_recv_window_frame s w).1;
    stop = u + steps;
    within = omega arith;
    at =
        (advance_recv_window_frame s w).0 ∙ omega (arith, v.filed.ack_lt, v.filed.small, j.s_lt, h);
    out = advance-Delivers;
  }
