-- ===== src/Arq/Transmit/Numbering.antt =====
-- The numbers that `getPacket` gives out, and how full the send window gets.
use dragonradio.Prelude.{
  ℕ, suc, ◌-◌, ◌≤◌, ◌<◌, ◌≡◌, inl, inr, refl, ◌∙◌, ap, subst, Bool, true, false, some, List, [],
  ◌++◌, arith, Bool-cases, length, if◌then◌else◌,
}
use dragonradio.Seq.{diff, lt, le, ge, add, incr}
use dragonradio.Packet.{NetPacket}
use dragonradio.Arq.Send.{SendWindow, Action, entry, drop_entry}
use dragonradio.Arq.Send.Skip.{drop_entry-Dropped}
use dragonradio.Arq.Transmit.{is_full, make_room, number, assign_seq}

-- The window holds `count` numbers that are out, `seq` being the next one.
pub record Within (w : SendWindow) : Type 0 where
  pub count : ℕ
  pub fits : count ≤ w.win
  pub next : w.seq ≡ add w.unack count

-- What holds of a send window in use.
pub record IsOpen (w : SendWindow) : Type 0 where
  pub unack_lt : w.unack < 65536
  pub max_lt : w.max < 65536
  pub win_pos : 0 < w.win
  pub win_le : w.win ≤ w.maxwin
  pub small : w.maxwin < 32768
  pub size : length w.entries ≡ w.maxwin
  pub within : Within w

-- The oldest number that is out has been sent, and its packet may be dropped.
pub record CanDrop (w : SendWindow) : Type 0 where
  pub oldest : NetPacket
  pub held : (entry w w.unack).pkt ≡ some oldest
  pub not_syn : oldest.syn ≡ false
  pub sent : le w.unack w.max ≡ true
  pub before : lt w.max w.seq ≡ true

module _ (a n k mx : ℕ) (ha : a < 65536) (hm : mx < 65536) (hn : n < 32768) (hk : k ≤ n) where
  full_iff : ge (add a k) (add a n) ≡ true → k ≡ n
  unfolding ge
  full_iff h = ground arith

  not_full : ge (add a k) (add a n) ≡ false → k < n
  unfolding ge
  not_full h = ground arith

  rounds-le : 0 < k → le a mx ≡ true → lt mx (add a k) ≡ true → diff (incr mx) a ≤ k
  unfolding lt le
  rounds-le h0 h g = ground arith

-- There is room for one more after `make_room`, and the next number stays.
pub record Room (w w' : SendWindow) : Type 0 where
  pub count : ℕ
  pub room : count < w'.win
  pub next : w'.seq ≡ add w'.unack count
  pub same_seq : w'.seq ≡ w.seq
  pub same_new : w'.new_window ≡ w.new_window

make_room-Room :
    (w : SendWindow)
    → IsOpen w
    → (is_full w ≡ true → CanDrop w)
    → (w' : SendWindow) × (acts : List Action) × (make_room w ≡ some (w', acts)) × Room w w'
unfolding make_room
make_room-Room w v c = elim (Bool-cases (is_full w)) [
  | inr e ↦ (
    w,
    [],
    rw (e, make_room),
    record {
      count = v.within.count;
      room =
          not_full w.unack w.win v.within.count w.max v.unack_lt v.max_lt
            (omega (arith, v.win_le, v.small)) v.within.fits
            (subst (λ (t : ℕ). ge t (add w.unack w.win) ≡ false) v.within.next e);
      next = v.within.next;
      same_seq = refl;
      same_new = refl;
    },
  )
  | inl e ↦
      let d = c e in
      let r =
        drop_entry-Dropped w d.oldest v.unack_lt v.max_lt
          (omega (arith, v.size, v.win_pos, v.win_le)) d.sent d.held in
      let full : v.within.count ≡ w.win =
        full_iff w.unack w.win v.within.count w.max v.unack_lt v.max_lt
          (omega (arith, v.win_le, v.small)) v.within.fits
          (subst (λ (t : ℕ). ge t (add w.unack w.win) ≡ true) v.within.next e) in
      let short : diff (incr w.max) w.unack ≤ v.within.count =
        rounds-le w.unack w.win v.within.count w.max v.unack_lt v.max_lt
          (omega (arith, v.win_le, v.small)) v.within.fits (omega (arith, full, v.win_pos)) d.sent
          (subst (λ (t : ℕ). lt w.max t ≡ true) v.within.next d.before) in
      (
        (drop_entry w.unack w).0,
        (drop_entry w.unack w).1,
        rw (e, d.held, d.not_syn, make_room),
        record {
          count = v.within.count - r.dist;
          room =
              omega (arith, r.pos, r.within, short, v.within.fits, r.full_win, v.win_le, v.win_pos);
          next =
              r.same_seq
              ∙ v.within.next
              ∙ omega (
                arith, r.unack_at, r.within, short, v.within.fits, v.win_le, v.small, v.unack_lt,
              );
          same_seq = r.same_seq;
          same_new = r.same_new;
        },
      )
]

-- On a window in use, with less than 32768 places, a packet without a number gets the next one: numbers are handed out one after the other, the
-- first packet of a connection carries the SYN flag, and even on a full window no more numbers are
-- out afterwards than the window holds, provided that the oldest packet of a full window has been
-- sent and may be dropped.
pub assign_seq-Within :
    (move_along : Bool) (p : NetPacket) (w : SendWindow)
    → IsOpen w
    → (is_full w ≡ true → CanDrop w)
    → (q : NetPacket) × (w' : SendWindow) × (acts : List Action) × (assign_seq move_along p w
        ≡ some (q, w', acts))
      × (q.seq ≡ w.seq)
      × (q.has_seq ≡ true)
      × (q.syn ≡ (if w.new_window then true else p.syn))
      × (w'.seq ≡ incr w.seq)
      × (w'.new_window ≡ false)
      × Within w'
unfolding assign_seq
assign_seq-Within move_along p w v c =
    let (w₁, acts₁, e, r) = make_room-Room w v c in
    let n = number move_along p w₁ in
    (
      n.0,
      n.1,
      acts₁ ++ n.2,
      rw (e, assign_seq),
      r.same_seq,
      refl,
      ap (λ t. if t then true else p.syn) r.same_new,
      ap (λ (t : ℕ). incr t) r.same_seq,
      refl,
      record { count = suc r.count; fits = r.room; next = omega (arith, r.next) },
    )
