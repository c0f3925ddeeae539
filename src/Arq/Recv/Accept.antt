-- ===== src/Arq/Recv/Accept.antt =====
-- Filing one packet of the window: raising `max`, the choice of `accept`, and the drain.
use dragonradio.Prelude.{
  ℕ, ◌+◌, ◌%◌, ◌<◌, ◌≡◌, inl, inr, refl, sym, ◌∙◌, ap, subst, Bool, true, false, not, arith,
  Bool-cases, ◌&&◌, get_or, ◌==◌, ==_iff,
}
use dragonradio.Seq.{Seq, lt, le, gt, add}
use dragonradio.Packet.{RadioPacket}
use dragonradio.Arq.Recv.{
  Entry, cleared, already_delivered, RecvWindow, entry, put, update_max, accept,
}
use dragonradio.Arq.Recv.Filed.{Filed, Slot, early, kept, shift-Filed}
use dragonradio.Arq.Recv.Fill.{raise-Filed, fill-Filed}
use dragonradio.Arq.Recv.Loops.{IsValid}
use dragonradio.Arq.Recv.Drain.{Moved, done, next, Bounded-next}

-- `s` lies in the window, and nothing of that number is there.
pub record Fits (s : Seq) (w : RecvWindow) : Type 0 where
  pub offset : ℕ
  pub in_win : offset < w.win
  pub place : s ≡ add w.ack offset
  pub free : entry w s ≡ cleared

module _ (a n i : ℕ) (ha : a < 65536) (hn : n < 32768) (hi : i < n) where
  in_bounds : lt (add a i) (add a n) ≡ true
  unfolding lt
  in_bounds = ground arith

le_refl : (a : ℕ) → a < 65536 → le a a ≡ true
unfolding le
le_refl a h = ground arith

not_gt : (a b : ℕ) → gt a b ≡ false → le a b ≡ true
unfolding le gt
not_gt a b h = ground arith

-- After the update `max` is not before the packet.
pub update_max-IsValid :
    (s t : ℕ) (w : RecvWindow)
    → IsValid w
    → Fits s w
    → IsValid (update_max s t w) × (le s (update_max s t w).max ≡ true)
unfolding update_max
update_max-IsValid s t w v f =
    let s_lt : s < 65536 = omega (arith, f.place) in
    let b : lt s (add w.ack w.win) ≡ true =
      rw f.place (in_bounds w.ack w.win f.offset v.filed.ack_lt v.filed.small f.in_win) in
    elim (Bool-cases (gt s w.max)) [
      | inl g ↦
          rw (g, update_max)
            (
              record {
                filed = raise-Filed w.ack w.win w.max s w.entries s_lt v.bounded g b v.filed;
                bounded = b;
              },
              le_refl s s_lt,
            )
      | inr g ↦ rw (g, update_max) (v, not_gt s w.max g)
    ]

pub update_max_frame :
    (s t : ℕ) (w : RecvWindow)
    → ((update_max s t w).ack ≡ w.ack)
      × ((update_max s t w).win ≡ w.win)
      × ((update_max s t w).entries ≡ w.entries)
unfolding update_max
update_max_frame s t w = (ground arith, ground arith, ground arith)

-- Storing an entry for `s` that is not the next number expected.
store-IsValid :
    (s : Seq) (w : RecvWindow) (e : Entry)
    → IsValid w
    → (f : Fits s w) → Slot w.ack w.win w.max (add w.ack f.offset % w.win) e
    → IsValid (put w s e)
store-IsValid s w e v f slot = record {
  filed =
      subst (λ t. Filed w.ack w.win w.max (put w t e).entries) (sym f.place)
        (fill-Filed w.ack w.win w.max f.offset w.entries e f.in_win slot v.filed);
  bounded = v.bounded;
}

-- Every choice leaves a valid window.
pub accept-IsValid :
    (enforce : Bool) (p : RadioPacket) (w : RecvWindow)
    → IsValid w
    → Fits p.seq w
    → le p.seq w.max ≡ true
    → IsValid (accept enforce p w).0
unfolding accept
accept-IsValid enforce p w v f l = elim (Bool-cases (p.seq == w.ack)) [
  | inl e ↦
      let same : p.seq ≡ w.ack = (==_iff p.seq w.ack).0 e in
      rw (e, accept)
        (record {
          filed =
              shift-Filed w.ack w.win w.max w.entries
                (subst (λ (n : ℕ). (get_or w.entries (w.ack % n) cleared).received ≡ false)
                  v.filed.size
                  (subst (λ t. (entry w t).received ≡ false) same
                    (ap (λ (t : Entry). t.received) f.free)))
                v.filed;
          bounded =
              Bounded-next w.ack w.win w.max v.filed.ack_lt v.filed.max_lt v.filed.small v.filed.pos
                (subst (λ t. le t w.max ≡ true) same l) v.bounded;
        })
  | inr e ↦ elim (Bool-cases (not enforce && not p.is_tcp)) [
    | inl c ↦
        rw (e, c, accept)
          (store-IsValid p.seq w _ v f (
            early f.offset f.in_win refl (subst (λ t. le t w.max ≡ true) f.place l)
              (ap already_delivered f.free)))
    | inr c ↦
        rw (e, c, accept)
          (store-IsValid p.seq w _ v f
            (kept f.offset p f.in_win refl (subst (λ t. le t w.max ≡ true) f.place l) f.place refl))
  ]
]

pub accept-frame :
    (enforce : Bool) (p : RadioPacket) (w : RecvWindow)
    → ((accept enforce p w).0.max ≡ w.max) × ((accept enforce p w).0.win ≡ w.win)
unfolding accept
accept-frame enforce p w = (ground arith, ground arith)

-- A packet that must stay in order is delivered only if it is the next one expected.
pub accept-Moved :
    (enforce : Bool) (p : RadioPacket) (u : ℕ) (w : RecvWindow)
    → (not enforce && not p.is_tcp) ≡ false
    → w.ack ≡ u % 65536
    → IsValid w
    → Fits p.seq w
    → le p.seq w.max ≡ true
    → Moved 1 u w (accept enforce p w)
accept-Moved enforce p u w o h v f l = elim (Bool-cases (p.seq == w.ack)) [
  | inl e ↦ record {
    valid = accept-IsValid enforce p w v f l;
    same_win = (accept-frame enforce p w).1;
    stop = u + 1;
    within = omega arith;
    at = unfold accept in rw (e, accept) (omega arith);
    out =
        unfold accept in
        rw (e, accept) (next u p (omega arith) ((==_iff p.seq w.ack).0 e ∙ h) (done (omega arith)));
  }
  | inr e ↦ record {
    valid = accept-IsValid enforce p w v f l;
    same_win = (accept-frame enforce p w).1;
    stop = u;
    within = omega arith;
    at = unfold accept in rw (e, o, accept) h;
    out = unfold accept in rw (e, o, accept) (done (omega arith));
  }
]
