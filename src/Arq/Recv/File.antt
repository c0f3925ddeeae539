-- ===== src/Arq/Recv/File.antt =====
-- Filing a packet: the window that `file_packet` leaves, and where a packet fits.
use dragonradio.Prelude.{
  ℕ, ◌+◌, ◌-◌, ◌%◌, ◌≤◌, ◌<◌, ◌≡◌, ◌⊎◌, inl, inr, refl, sym, ◌∙◌, ap, subst, Bool, true, false, not,
  [], arith, ◌&&◌, length, get_or,
}
use dragonradio.Seq.{Seq, diff, lt, le, gt, ge, add, sub, incr}
use dragonradio.Packet.{RadioPacket}
use dragonradio.Arq.Recv.{
  Entry, cleared, RecvWindow, entry, update_max, accept, drain, file_packet, advance_recv_window,
}
use dragonradio.Arq.Recv.Filed.{At, at_free, at_early, at_kept, entry-At}
use dragonradio.Arq.Recv.Loops.{IsValid}
use dragonradio.Arq.Recv.Advance.{Jumps, advance_recv_window-IsValid, advance_recv_window_frame}
use dragonradio.Arq.Recv.Drain.{
  Moved, Delivers-append, drain-Moved, drain_loop-Moved, drain_loop-hole,
}
use dragonradio.Arq.Recv.Accept.{
  Fits, update_max-IsValid, update_max_frame, accept-IsValid, accept-Moved,
}

-- No received packet waits at the head of the window.
abbrev pub IsDrained : RecvWindow → Type 0
IsDrained w = (le w.ack w.max && (entry w w.ack).received) ≡ false

-- The packet as it is filed, its control messages cleared.
abbrev bare : RadioPacket → RadioPacket
bare p = record p { control = [] }

module _ (enforce : Bool) (p : RadioPacket) (w : RecvWindow) (v : IsValid w)
    (f : Fits p.seq w) where
  abbrev raised : RecvWindow
  raised = update_max p.seq p.timestamp w

  raised-Fits : Fits p.seq raised
  raised-Fits =
      let e = update_max_frame p.seq p.timestamp w in
      record {
        offset = f.offset;
        in_win = subst (λ (n : ℕ). f.offset < n) (sym e.1) f.in_win;
        place = f.place ∙ ap (λ (a : ℕ). add a f.offset) (sym e.0);
        free = subst (λ t. get_or t (p.seq % length t) cleared ≡ cleared) (sym e.2) f.free;
      }

  accepted-IsValid : IsValid (accept enforce (bare p) raised).0
  accepted-IsValid =
      let u = update_max-IsValid p.seq p.timestamp w v f in
      accept-IsValid enforce (bare p) raised u.0 raised-Fits u.1

  pub file_packet-IsValid : IsValid (file_packet enforce p w).0
  unfolding file_packet drain
  file_packet-IsValid =
      let w₁ = (accept enforce (bare p) raised).0 in
      (drain_loop-Moved (diff (incr w₁.max) w₁.ack) w₁.ack w₁
        (omega (arith, accepted-IsValid.filed.ack_lt)) accepted-IsValid).valid

  pub file_packet-IsDrained : IsDrained (file_packet enforce p w).0
  unfolding file_packet drain
  file_packet-IsDrained =
      let w₁ = (accept enforce (bare p) raised).0 in
      drain_loop-hole (diff (incr w₁.max) w₁.ack) w₁ refl accepted-IsValid.filed.ack_lt
        accepted-IsValid.filed.max_lt (omega arith)

  -- A packet that must stay in order: all is delivered in order.
  pub file_packet-Moved :
      (u : ℕ)
      → (not enforce && not p.is_tcp) ≡ false
      → w.ack ≡ u % 65536
      → Moved (w.win + 1) u w (file_packet enforce p w)
  unfolding file_packet
  file_packet-Moved u o h =
      let fr = update_max_frame p.seq p.timestamp w in
      let le_max = update_max-IsValid p.seq p.timestamp w v f in
      let m₁ = accept-Moved enforce (bare p) u raised o (fr.0 ∙ h) le_max.0 raised-Fits le_max.1 in
      let w₁ = (accept enforce (bare p) raised).0 in
      let m₂ = drain-Moved m₁.stop w₁ m₁.at m₁.valid in
      record {
        valid = m₂.valid;
        same_win = m₂.same_win ∙ m₁.same_win ∙ fr.1;
        stop = m₂.stop;
        within = omega (arith, m₁.within, m₂.within, m₁.same_win, fr.1);
        at = m₂.at;
        out = Delivers-append m₂.stop (drain w₁).1 m₁.out m₂.out;
      }

-- The entry of the last number of a window that `max` has not reached is free.
pub entry-free :
    (s i : ℕ) (w : RecvWindow)
    → IsValid w
    → i < w.win
    → s ≡ add w.ack i
    → (le s w.max ≡ false) ⊎ ((entry w s).received ≡ false)
    → Fits s w
entry-free s i w v hi hs h = record {
  offset = i;
  in_win = hi;
  place = hs;
  free =
      subst (λ t. entry w t ≡ cleared) (sym hs)
        (go (entry-At w.ack i v.filed hi)
          (subst (λ t. (le t w.max ≡ false) ⊎ ((entry w t).received ≡ false)) hs h));
}
  where
    go :
        At w.max (add w.ack i) (entry w (add w.ack i))
        → (le (add w.ack i) w.max ≡ false) ⊎ ((entry w (add w.ack i)).received ≡ false)
        → entry w (add w.ack i) ≡ cleared
    go (at_free c) k = c
    go (at_early l c) (inl k) = absurd (cc k)
    go (at_early l c) (inr k) = absurd (cc (ap (λ (t : Entry). t.received) c))
    go (at_kept q l m c) (inl k) = absurd (cc k)
    go (at_kept q l m c) (inr k) = absurd (cc (ap (λ (t : Entry). t.received) c))

gt_not_le : (a b : ℕ) → gt a b ≡ true → le a b ≡ false
unfolding gt le
gt_not_le a b h = ground arith

pub inside :
    (a n s : ℕ)
    → a < 65536
    → s < 65536
    → n < 32768
    → lt s a ≡ false
    → ge s (add a n) ≡ false
    → (diff s a < n) × (s ≡ add a (diff s a))
unfolding lt ge
inside a n s ha hs hn l g = (ground arith, ground arith)

pub steps-le :
    (a n s : ℕ)
    → a < 65536
    → s < 65536
    → n < 32768
    → 0 < n
    → lt s a ≡ false
    → ge s (add a n) ≡ true
    → diff (sub (add s 1) n) a + n ≤ 32768
unfolding lt ge
steps-le a n s ha hs hn h0 l g = ground arith

-- After the window has jumped, the packet fits at its end.
pub jumped-Fits :
    (s : Seq) (w : RecvWindow) → IsValid w → Jumps s w → Fits s (advance_recv_window s w).0
jumped-Fits s w v j =
    let w' = (advance_recv_window s w).0 in
    let fr = advance_recv_window_frame s w in
    let v' : IsValid w' = advance_recv_window-IsValid s w v j in
    entry-free s (w.win - 1) w' v' (omega (arith, fr.1, v.filed.pos))
      (omega (arith, fr.0, v.filed.pos, v.filed.small, j.s_lt))
      (inl (subst (λ (m : ℕ). le s m ≡ false) (sym fr.2) (gt_not_le s w.max j.near)))
