-- ===== src/Arq/Send/Skip.antt =====
-- `advanceSendWindow` and `drop`: how far the send window moves on.
use dragonradio.Prelude.{
  ℕ, zero, suc, ◌%◌, ◌≤◌, ◌<◌, ◌≡◌, inl, inr, refl, ◌∙◌, ap, Bool, true, false, not, ◌&&◌, some,
  arith, Bool-cases, is_some, length, get_or, set, get_or-set_self, length-set,
}
use native.Mathlib.Nat.{mod-lt}
use dragonradio.Seq.{Seq, diff, le, add, incr}
use dragonradio.Packet.{NetPacket}
use dragonradio.Arq.Send.{
  SendWindow, Entry, entry, put, released, skip_loop, advance_send_window, drop_entry, vacant,
}

-- The condition of the loop.
abbrev pub may_skip : SendWindow → Bool
may_skip w = le w.unack w.max && not (is_some (entry w w.unack).pkt)

-- The window moved on by `d`, and nothing else.
abbrev pub forward : SendWindow → ℕ → SendWindow
forward w d = record w { unack = add w.unack d }

pub record Skipped (f : ℕ) (w w' : SendWindow) : Type 0 where
  pub dist : ℕ
  pub within : dist ≤ f
  pub at : w' ≡ forward w dist
  pub moves : may_skip w ≡ true → 0 < f → 0 < dist

forward_zero : (w : SendWindow) → w.unack < 65536 → w ≡ forward w 0
forward_zero w h =
    let e : w.unack ≡ add w.unack 0 = omega arith in ap (λ (t : ℕ). record w { unack = t }) e

forward-suc : (w : SendWindow) (d : ℕ) → forward (forward w 1) d ≡ forward w (suc d)
forward-suc w d =
    let e : add (add w.unack 1) d ≡ add w.unack (suc d) = omega arith in
    ap (λ (t : ℕ). record w { unack = t }) e

pub skip_loop-Skipped : (f : ℕ) (w : SendWindow) → w.unack < 65536 → Skipped f w (skip_loop f w)
unfolding skip_loop
skip_loop-Skipped zero w h = record {
  dist = 0;
  within = omega arith;
  at = forward_zero w h;
  moves = λ _ k. k;
}
skip_loop-Skipped (suc f) w h = elim (Bool-cases (may_skip w)) [
  | inl e ↦
      let r = skip_loop-Skipped f (forward w 1) (omega arith) in
      rw (e, skip_loop)
        (record {
          dist = suc r.dist;
          within = omega (arith, r.within);
          at = r.at ∙ forward-suc w r.dist;
          moves = λ _ _. omega arith;
        })
  | inr e ↦
      rw (e, skip_loop)
        (record {
          dist = 0;
          within = omega arith;
          at = forward_zero w h;
          moves = λ t _. absurd (cc t);
        })
]

past_end : (a mx : ℕ) → a < 65536 → mx < 65536 → diff (incr mx) a ≡ 0 → le a mx ≡ false
unfolding le
past_end a mx ha hm h = ground arith

-- The loop stops at a packet that waits for its ACK, or past `max`.
skip_loop-stop :
    (f : ℕ) (w : SendWindow)
    → diff (incr w.max) w.unack ≡ f
    → w.unack < 65536
    → w.max < 65536
    → may_skip (skip_loop f w) ≡ false
unfolding skip_loop
skip_loop-stop zero w e ha hm = rw (past_end w.unack w.max ha hm e)
skip_loop-stop (suc f) w e ha hm = elim (Bool-cases (may_skip w)) [
  | inl t ↦ rw (t, skip_loop) (skip_loop-stop f (forward w 1) (omega arith) (omega arith) hm)
  | inr t ↦ rw (t, skip_loop) t
]

-- `advanceSendWindow` leaves the window at a packet that waits for its ACK, or past `max`: it never
-- rests on a number that has been released. The window gets its full size.
pub advance_send_window_stop :
    (w : SendWindow)
    → w.unack < 65536
    → w.max < 65536
    → let w' = (advance_send_window w).0 in (may_skip w' ≡ false) × (w'.win ≡ w.maxwin)
unfolding advance_send_window
advance_send_window_stop w ha hm =
    let f = diff (incr w.max) w.unack in
    let s = skip_loop-Skipped f w ha in
    (skip_loop-stop f w refl ha hm, ap (λ (t : SendWindow). t.maxwin) s.at)

-- How `drop` of the first packet of the window moves it.
pub record Dropped (w w' : SendWindow) : Type 0 where
  pub dist : ℕ
  pub pos : 0 < dist
  pub within : dist ≤ diff (incr w.max) w.unack
  pub unack_at : w'.unack ≡ add w.unack dist
  pub same_seq : w'.seq ≡ w.seq
  pub same_new : w'.new_window ≡ w.new_window
  pub full_win : w'.win ≡ w.maxwin
  pub same_maxwin : w'.maxwin ≡ w.maxwin

pub entry-put_self :
    (w : SendWindow) (s : Seq) (e : Entry) → 0 < length w.entries → entry (put w s e) s ≡ e
entry-put_self w s e h =
    let es = w.entries in
    ap (λ (n : ℕ). get_or (set es (s % length es) e) (s % n) vacant)
      (length-set es (s % length es) e)
    ∙ get_or-set_self es (s % length es) e vacant (mod-lt s h)

head_vacated :
    (w : SendWindow)
    → 0 < length w.entries
    → le w.unack w.max ≡ true
    → may_skip (put w w.unack (released (entry w w.unack))) ≡ true
head_vacated w h l =
    let e : entry (put w w.unack (released (entry w w.unack))) w.unack
        ≡ released (entry w w.unack) =
      entry-put_self w w.unack (released (entry w w.unack)) h in
    rw (l, e)

rounds_pos : (a mx : ℕ) → a < 65536 → mx < 65536 → le a mx ≡ true → 0 < diff (incr mx) a
unfolding le
rounds_pos a mx ha hm h = ground arith

pub drop_entry-Dropped :
    (w : SendWindow) (p : NetPacket)
    → w.unack < 65536
    → w.max < 65536
    → 0 < length w.entries
    → le w.unack w.max ≡ true
    → (entry w w.unack).pkt ≡ some p
    → Dropped w (drop_entry w.unack w).0
unfolding drop_entry
drop_entry-Dropped w p ha hm hl l e =
    let w₁ : SendWindow = put w w.unack (released (entry w w.unack)) in
    let f = diff (incr w.max) w.unack in
    let s = skip_loop-Skipped f w₁ ha in
    rw (e, drop_entry)
      (record {
        dist = s.dist;
        pos = s.moves (head_vacated w hl l) (rounds_pos w.unack w.max ha hm l);
        within = s.within;
        unack_at = ap (λ (t : SendWindow). t.unack) s.at;
        same_seq = ap (λ (t : SendWindow). t.seq) s.at;
        same_new = ap (λ (t : SendWindow). t.new_window) s.at;
        full_win = ap (λ (t : SendWindow). t.maxwin) s.at;
        same_maxwin = ap (λ (t : SendWindow). t.maxwin) s.at;
      })
