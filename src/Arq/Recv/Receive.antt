-- ===== src/Arq/Recv/Receive.antt =====
-- A whole call of `received` for a packet with data: the window stays valid and drained.
use Prim.Native.Nat.{◌∣◌}
use dragonradio.Prelude.{
  ℕ, ◌<◌, ◌≡◌, inl, inr, length-replicate, get_or-replicate, Bool, true, false, List, [], ◌∷◌, ◌++◌,
  arith, Bool-cases,
}
use dragonradio.Seq.{Seq, diff, lt, le, gt, ge, add, sub}
use dragonradio.Packet.{
  RadioPacket, ControlMsg, hello, timestamp, timestamp_echo, receiver_stats, nak, selective_ack,
  set_unack,
}
use dragonradio.Arq.Recv.{
  RecvWindow, entry, file_packet, set_unack_to, handle_set_unack, advance_recv_window, recv_opened,
  recv_data, new_window, cleared,
}
use dragonradio.Arq.Recv.Filed.{free}
use dragonradio.Arq.Recv.Fill.{Bounded}
use dragonradio.Arq.Recv.Loops.{IsValid, set_unack_to-IsValid}
use dragonradio.Arq.Recv.Advance.{Jumps, advance_recv_window-IsValid}
use dragonradio.Arq.Recv.Accept.{Fits}
use dragonradio.Arq.Recv.File.{
  IsDrained, file_packet-IsValid, file_packet-IsDrained, entry-free, inside, jumped-Fits,
}

-- The set-unack messages of a packet move the window only to where `max` stays comparable with it.
abbrev pub UnacksFit : List ControlMsg → RecvWindow → Type 0
UnacksFit [] w = Unit {0}
UnacksFit (set_unack next ∷ ms) w =
    (next < 65536)
    × (gt next w.ack ≡ true → Bounded next w.win w.max)
    × UnacksFit ms (set_unack_to next w)
UnacksFit (hello _ ∷ ms) w = UnacksFit ms w
UnacksFit (timestamp _ ∷ ms) w = UnacksFit ms w
UnacksFit (timestamp_echo _ _ _ ∷ ms) w = UnacksFit ms w
UnacksFit (receiver_stats _ _ ∷ ms) w = UnacksFit ms w
UnacksFit (nak _ ∷ ms) w = UnacksFit ms w
UnacksFit (selective_ack _ _ ∷ ms) w = UnacksFit ms w

pub handle_set_unack-IsValid :
    (ms : List ControlMsg) (w : RecvWindow)
    → UnacksFit ms w
    → IsValid w
    → IsValid (handle_set_unack ms w)
unfolding handle_set_unack
handle_set_unack-IsValid [] w f v = v
handle_set_unack-IsValid (set_unack next ∷ ms) w f v =
    handle_set_unack-IsValid ms (set_unack_to next w) f.2 (set_unack_to-IsValid next w f.0 f.1 v)
handle_set_unack-IsValid (hello _ ∷ ms) w f v = handle_set_unack-IsValid ms w f v
handle_set_unack-IsValid (timestamp _ ∷ ms) w f v = handle_set_unack-IsValid ms w f v
handle_set_unack-IsValid (timestamp_echo _ _ _ ∷ ms) w f v = handle_set_unack-IsValid ms w f v
handle_set_unack-IsValid (receiver_stats _ _ ∷ ms) w f v = handle_set_unack-IsValid ms w f v
handle_set_unack-IsValid (nak _ ∷ ms) w f v = handle_set_unack-IsValid ms w f v
handle_set_unack-IsValid (selective_ack _ _ ∷ ms) w f v = handle_set_unack-IsValid ms w f v

-- A packet past the end of the window lies past `max` by less than half the range.
abbrev pub IsNear : Seq → RecvWindow → Type 0
IsNear s w = ge s (add w.ack w.win) ≡ true → gt s w.max ≡ true

module _ (enforce : Bool) (p : RadioPacket) (w : RecvWindow) (s_lt : p.seq < 65536) (v : IsValid w)
    (near : IsNear p.seq w) where
  pub fits :
      lt p.seq w.ack ≡ false
      → ge p.seq (add w.ack w.win) ≡ false
      → (entry w p.seq).received ≡ false
      → Fits p.seq w
  fits l g r =
      let i = inside w.ack w.win p.seq v.filed.ack_lt s_lt v.filed.small l g in
      entry-free p.seq (diff p.seq w.ack) w v i.0 i.1 (inr r)

  pub jumps : lt p.seq w.ack ≡ false → ge p.seq (add w.ack w.win) ≡ true → Jumps p.seq w
  jumps l g = record { s_lt = s_lt; past = g; near = near g; late = l }

  -- A fact that dropping, jumping and filing establish holds after every call.
  pub recv_opened_cases {ℓ} :
      (P : RecvWindow × List RadioPacket → Type ℓ)
      → P (w, [])
      → ((l : lt p.seq w.ack ≡ false) (g : ge p.seq (add w.ack w.win) ≡ true)
          → let moved = advance_recv_window p.seq w in
            let (w', out) = file_packet enforce p moved.0 in P (w', moved.1 ++ out))
      → (Fits p.seq w → P (file_packet enforce p w))
      → P (recv_opened enforce p w)
  unfolding recv_opened
  recv_opened_cases P same jump file = elim (Bool-cases (lt p.seq w.ack)) [
    | inl l ↦ rw (l, recv_opened) same
    | inr l ↦ elim (Bool-cases (ge p.seq (add w.ack w.win))) [
      | inl g ↦ rw (l, g, recv_opened) (jump l g)
      | inr g ↦ elim (Bool-cases (entry w p.seq).received) [
        | inl r ↦ rw (l, g, r, recv_opened) same
        | inr r ↦ rw (l, g, r, recv_opened) (file (fits l g r))
      ]
    ]
  ]

  pub recv_opened-IsValid : IsValid (recv_opened enforce p w).0
  recv_opened-IsValid =
      recv_opened_cases (λ r. IsValid r.0) v
        (λ l g.
          file_packet-IsValid enforce p (advance_recv_window p.seq w).0
            (advance_recv_window-IsValid p.seq w v (jumps l g)) (jumped-Fits p.seq w v (jumps l g)))
        (λ f. file_packet-IsValid enforce p w v f)

  pub recv_opened-IsDrained : IsDrained w → IsDrained (recv_opened enforce p w).0
  recv_opened-IsDrained d =
      recv_opened_cases (λ r. IsDrained r.0) d
        (λ l g.
          file_packet-IsDrained enforce p (advance_recv_window p.seq w).0
            (advance_recv_window-IsValid p.seq w v (jumps l g)) (jumped-Fits p.seq w v (jumps l g)))
        (λ f. file_packet-IsDrained enforce p w v f)

-- A packet with data keeps a receive window valid: its places hold what the window says, `max`
-- stays before its end. The packet's set-unack messages must leave `max` comparable with the
-- window, and a packet past the window must lie past `max` by less than half the range.
pub recv_data-IsValid :
    (enforce : Bool) (p : RadioPacket) (w : RecvWindow)
    → p.seq < 65536
    → IsValid w
    → UnacksFit p.control w
    → IsNear p.seq (handle_set_unack p.control w)
    → IsValid (recv_data enforce p w).0
unfolding recv_data
recv_data-IsValid enforce p w h v fit near =
    recv_opened-IsValid enforce p (handle_set_unack p.control w) h
      (handle_set_unack-IsValid p.control w fit v) near

pub head_in :
    (a n : ℕ) → a < 65536 → 0 < n → n < 32768 → (lt a a ≡ false) × (ge a (add a n) ≡ false)
unfolding lt ge
head_in a n ha h0 hn = (ground arith, ground arith)

pub recv_opened_duplicate :
    (enforce : Bool) (p : RadioPacket) (w : RecvWindow)
    → lt p.seq w.ack ≡ false
    → ge p.seq (add w.ack w.win) ≡ false
    → (entry w p.seq).received ≡ true
    → recv_opened enforce p w ≡ (w, [])
unfolding recv_opened
recv_opened_duplicate enforce p w l g r = rw (l, g, r, recv_opened)

new_max :
    (seq win : ℕ)
    → seq < 65536
    → 0 < win
    → win < 32768
    → Bounded seq win (sub seq 1) × (le seq (sub seq 1) ≡ false)
unfolding lt le
new_max seq win hs h0 hw = (ground arith, ground arith)

-- A new window whose size is positive, less than 32768 and divides 65536 is valid, and nothing waits
-- in it.
pub new_window-IsValid :
    (seq win : ℕ)
    → seq < 65536
    → win ∣ 65536
    → 0 < win
    → win < 32768
    → IsValid (new_window seq win) × IsDrained (new_window seq win)
unfolding new_window
new_window-IsValid seq win hs d h0 hw =
    let m = new_max seq win hs h0 hw in
    (
      record {
        filed = record {
          size = length-replicate win cleared;
          divides = d;
          pos = h0;
          small = hw;
          ack_lt = hs;
          max_lt = omega arith;
          slots = λ k. free (get_or-replicate win cleared k);
        };
        bounded = m.0;
      },
      rw m.1,
    )
