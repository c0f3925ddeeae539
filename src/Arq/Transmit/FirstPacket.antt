-- ===== src/Arq/Transmit/FirstPacket.antt =====
-- What becomes of the first packet when an ACK is handled before anything was sent: `getPacket`
-- makes a send window for a packet without data too, and `max` is then equal to `unack`.
use dragonradio.Prelude.{
  ℕ, ◌%◌, ◌<◌, ◌≡◌, refl, ◌∙◌, ap, Bool, true, false, none, some, List, [], arith, length,
  get_or-replicate, replicate,
}
use dragonradio.Seq.{lt, le, ge, add}
use dragonradio.Packet.{NetPacket}
use dragonradio.Arq.Send.{SendWindow, Action, vacant, advance_send_window, new_send_window}
use dragonradio.Arq.Send.Skip.{skip_loop-Skipped}
use dragonradio.Arq.Transmit.{is_full, make_room, number, assign_seq, TxConfig, keep_sent}

before_window : (m : ℕ) → 0 < m → m < 32768 → (ge 0 (add 1 m) ≡ false) × (lt 0 1 ≡ true)
unfolding ge lt
before_window m h0 hm = (ground arith, refl)

abbrev opened : ℕ → SendWindow
opened m = (advance_send_window (new_send_window m)).0

record Ahead (m : ℕ) (w : SendWindow) : Type 0 where
  seq_at : w.seq ≡ 0
  unack_at : w.unack ≡ 1
  win_at : w.win ≡ m
  is_new : w.new_window ≡ true

opened-Ahead : (m : ℕ) → Ahead m (opened m)
unfolding advance_send_window new_send_window le
opened-Ahead m =
    let s = skip_loop-Skipped 1 (new_send_window m) (omega arith) in
    let one : s.dist ≡ 1 = omega (
      arith,
      s.within,
      s.moves (rw (get_or-replicate m vacant (0 % length (replicate m vacant)))) (omega arith),
    ) in
    record {
      seq_at = ap (λ (t : SendWindow). t.seq) s.at;
      unack_at = ap (λ (t : SendWindow). t.unack) s.at ∙ omega (arith, one);
      win_at = ap (λ (t : SendWindow). t.maxwin) s.at;
      is_new = ap (λ (t : SendWindow). t.new_window) s.at;
    }

no_drop : (w : SendWindow) → is_full w ≡ false → make_room w ≡ some (w, [])
unfolding make_room
no_drop w e = rw e

lost :
    (m : ℕ) (move_along : Bool) (c : TxConfig) (now : ℕ) (p : NetPacket) (w : SendWindow)
    → 0 < m
    → m < 32768
    → Ahead m w
    → (q : NetPacket) × (w' : SendWindow) × (acts : List Action) × (assign_seq move_along p w
        ≡ some (q, w', acts))
      × (q.syn ≡ true)
      × (w'.new_window ≡ false)
      × (keep_sent c now q w' ≡ (none, w'))
unfolding assign_seq number keep_sent
lost m move_along c now p w h0 hm a =
    let n = number move_along p w in
    let b = before_window m h0 hm in
    let room : is_full w ≡ false = rw (a.seq_at, a.unack_at, a.win_at) b.0 in
    let early : lt w.seq w.unack ≡ true = rw (a.seq_at, a.unack_at) b.1 in
    (n.0, n.1, n.2, rw (no_drop w room, assign_seq), rw a.is_new, refl, rw (early))

-- If `advanceSendWindow` runs before the first data packet of a new window of fewer than 32768 places
-- is numbered, then the first packet is
-- lost: it gets the SYN flag, which no later packet gets, and `pull` discards it as lying before the
-- window.
pub first_packet_lost :
    (maxwin : ℕ) (move_along : Bool) (c : TxConfig) (now : ℕ) (p : NetPacket)
    → 0 < maxwin
    → maxwin < 32768
    → (q : NetPacket) × (w' : SendWindow) × (acts : List Action) × (assign_seq move_along p
          (advance_send_window (new_send_window maxwin)).0
        ≡ some (q, w', acts))
      × (q.syn ≡ true)
      × (w'.new_window ≡ false)
      × (keep_sent c now q w' ≡ (none, w'))
first_packet_lost maxwin move_along c now p h0 hm =
    lost maxwin move_along c now p (opened maxwin) h0 hm (opened-Ahead maxwin)
