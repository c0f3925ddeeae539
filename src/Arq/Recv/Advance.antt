-- ===== src/Arq/Recv/Advance.antt =====
-- `advanceRecvWindow`: the window jumps so that a number past its end becomes its last.
use dragonradio.Prelude.{
  ℕ, zero, suc, ◌<◌, ◌≡◌, inl, inr, refl, true, false, [], arith, Bool-cases, if◌then◌else◌,
}
use dragonradio.Seq.{Seq, diff, lt, le, gt, ge, add, sub, incr}
use dragonradio.Arq.Recv.{RecvWindow, forget_loop, advance_recv_window, put, cleared}
use dragonradio.Arq.Recv.Fill.{Bounded, empty-Filed}
use dragonradio.Arq.Recv.Loops.{IsValid, forget_loop-Filed, set_ack-IsValid}

pub forget_loop_frame :
    (f seq forget : ℕ) (w : RecvWindow)
    → let w' = (forget_loop f seq forget w).0 in (w'.win ≡ w.win) × (w'.max ≡ w.max)
unfolding forget_loop
forget_loop_frame zero seq forget w = (refl, refl)
forget_loop_frame (suc f) seq forget w = elim (Bool-cases (lt seq forget)) [
  | inl e ↦ rw (e, forget_loop) (forget_loop_frame f (incr seq) forget (put w seq cleared))
  | inr e ↦ rw (e, forget_loop) (refl, refl)
]

-- What `advanceRecvWindow` sets and what it leaves alone.
pub advance_recv_window_frame :
    (s : Seq) (w : RecvWindow)
    → let w' = (advance_recv_window s w).0 in
      (w'.ack ≡ sub (add s 1) w.win) × (w'.win ≡ w.win) × (w'.max ≡ w.max)
unfolding advance_recv_window
advance_recv_window_frame s w =
    let r = forget_loop_frame (diff forget w.ack) w.ack forget w in (refl, r.0, r.1)
  where
    forget : Seq
    forget = if gt (sub (add s 1) w.win) w.max then add w.max 1 else sub (add s 1) w.win

pub forget_loop-stop :
    (f seq forget : ℕ) (w : RecvWindow)
    → lt seq forget ≡ false
    → forget_loop f seq forget w ≡ (w, [])
unfolding forget_loop
forget_loop-stop zero seq forget w h = refl
forget_loop-stop (suc f) seq forget w h = rw (h, forget_loop)

-- Where the numbers stand when `s` lies past the end of the window, by less than half the range.
module _ (a n mx s : ℕ) (ha : a < 65536) (hm : mx < 65536) (hs : s < 65536) (hn : n < 32768)
    (h0 : 0 < n) (b : Bounded a n mx) (past : ge s (add a n) ≡ true) (near : gt s mx ≡ true)
    (late : lt s a ≡ false) where
  new-Bounded : Bounded (sub (add s 1) n) n mx
  unfolding lt gt ge
  new-Bounded = ground arith

  new-near : diff (sub (add s 1) n) a < 32768
  unfolding lt gt ge
  new-near = ground arith

  all_before : lt a (add mx 1) ≡ false → (i : ℕ) → i < n → le (add a i) mx ≡ false
  unfolding lt le
  all_before h i hi = ground arith

  beyond : (i : ℕ) → i < n → le (add (add mx 1) i) mx ≡ false
  unfolding lt le
  beyond i hi = ground arith

  pub max-near : lt a (add mx 1) ≡ true → diff (add mx 1) a < 32768
  unfolding lt le
  max-near h = ground arith

-- The conditions of the section above, for a window and a number.
pub record Jumps (s : Seq) (w : RecvWindow) : Type 0 where
  pub s_lt : s < 65536
  pub past : ge s (add w.ack w.win) ≡ true
  pub near : gt s w.max ≡ true
  pub late : lt s w.ack ≡ false

module _ (s : Seq) (w : RecvWindow) (v : IsValid w) (j : Jumps s w) where
  abbrev start : Seq
  start = sub (add s 1) w.win

  start-Bounded : Bounded start w.win w.max
  start-Bounded =
      new-Bounded w.ack w.win w.max s v.filed.ack_lt v.filed.max_lt j.s_lt v.filed.small v.filed.pos
        v.bounded j.past j.near j.late

  pub start-near : diff start w.ack < 32768
  start-near =
      new-near w.ack w.win w.max s v.filed.ack_lt v.filed.max_lt j.s_lt v.filed.small v.filed.pos
        v.bounded j.past j.near j.late

  -- Some numbers received stay inside: the entries before the new start are released.
  advance_overlap : gt start w.max ≡ false → IsValid (advance_recv_window s w).0
  unfolding advance_recv_window
  advance_overlap g =
      let r =
        forget_loop-Filed (diff start w.ack) w.ack start w (omega arith) refl start-near v.filed in
      rw (g, advance_recv_window)
        (set_ack-IsValid (forget_loop (diff start w.ack) w.ack start w).0 start w.win w.max
          (r.0, r.1, r.2) start-Bounded)

  -- All numbers received lie before the new start: the window is emptied.
  advance_gap : gt start w.max ≡ true → IsValid (advance_recv_window s w).0
  unfolding advance_recv_window
  advance_gap g = elim (Bool-cases (lt w.ack (add w.max 1))) [
    | inl some_in ↦
        let r =
          forget_loop-Filed (diff (add w.max 1) w.ack) w.ack (add w.max 1) w (omega arith) refl
            (max-near w.ack w.win w.max s v.filed.ack_lt v.filed.max_lt j.s_lt v.filed.small
              v.filed.pos v.bounded j.past j.near j.late some_in)
            v.filed in
        rw (g, advance_recv_window)
          (set_ack-IsValid (forget_loop (diff (add w.max 1) w.ack) w.ack (add w.max 1) w).0 start
            w.win w.max
            (
              empty-Filed (add w.max 1) w.win w.max start _ (omega arith)
                  (beyond w.ack w.win w.max s v.filed.ack_lt v.filed.max_lt j.s_lt v.filed.small
                    v.filed.pos v.bounded j.past j.near j.late)
                  r.0,
              r.1,
              r.2,
            )
            start-Bounded)
    | inr none_in ↦
        rw (g, advance_recv_window)
          (rw (forget_loop-stop (diff (add w.max 1) w.ack) w.ack (add w.max 1) w none_in) (record {
            filed =
                empty-Filed w.ack w.win w.max start w.entries (omega arith)
                  (all_before w.ack w.win w.max s v.filed.ack_lt v.filed.max_lt j.s_lt v.filed.small
                    v.filed.pos v.bounded j.past j.near j.late none_in)
                  v.filed;
            bounded = start-Bounded;
          }))
  ]

  -- Then `s` is the last number of the window, and the window is as good as before.
  pub advance_recv_window-IsValid : IsValid (advance_recv_window s w).0
  advance_recv_window-IsValid = elim (Bool-cases (gt start w.max)) [
    | inl g ↦ advance_gap g
    | inr g ↦ advance_overlap g
  ]
