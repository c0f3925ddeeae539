-- ===== src/Arq/Controller/Syn.antt =====
-- The packet that opens a connection.
use dragonradio.Prelude.{
  ℕ, ◌%◌, ◌<◌, ◌≡◌, inl, inr, refl, sym, ap, ◌∙◌, subst, Bool, true, false, Option, none, some,
  List, [], ◌∷◌, arith, Bool-cases, length, get_or, get_or-replicate, replicate, if◌then◌else◌,
  ◌==◌, ◌+◌,
}
use dragonradio.Double.{Doubles}
use dragonradio.Seq.{diff, lt, le, gt, ge, add, sub, incr}
use dragonradio.Packet.{NetPacket, RadioPacket, ControlMsg, NodeId}
use dragonradio.Arq.Recv.{
  RecvWindow, Entry, cleared, entry, new_window, handle_set_unack, recv_data, recv_opened,
  file_packet, update_max, accept, drain, drain_loop,
}
use dragonradio.Arq.Timers.{Receiver, Local, new_receiver, ack, start_sack_timer, feedback_packet}
use dragonradio.Arq.Feedback.{append_feedback, sacks, prune}
use dragonradio.Arq.Feedback.Quiet.{sacks-quiet, prune-nothing}
use dragonradio.Packet.Control.{ctrlsize}
use dragonradio.Arq.Windows.{Output, deliver, push_hi, Settings}
use dragonradio.Arq.Controller.{Heard, filled, fill}

-- The first packet of a window goes on at once, without its control messages.
record First (p : RadioPacket) (r : RecvWindow × List RadioPacket) : Type 0 where
  pub delivered : r.1 ≡ record p { control = [] } ∷ []
  pub next : r.0.ack ≡ incr p.seq
  pub latest : r.0.max ≡ p.seq

later : (s : ℕ) → s < 65536 → gt s (sub s 1) ≡ true
unfolding gt
later s h = ground arith

not_before : (s : ℕ) → s < 65536 → lt s s ≡ false
unfolding lt
not_before s h = ground arith

not_after : (s n : ℕ) → s < 65536 → 0 < n → n < 32767 → ge s (add s n) ≡ false
unfolding ge
not_after s n h h0 h1 = ground arith

module _ (p : RadioPacket) (w : RecvWindow) (hp : p.seq < 65536) where
  file_packet-First : (b : Bool) → w.ack ≡ p.seq → w.max ≡ sub p.seq 1 → First p (file_packet b p w)
  unfolding file_packet update_max accept drain drain_loop
  file_packet-First b a m =
      let newer : gt p.seq w.max ≡ true =
        subst (λ (t : ℕ). gt p.seq t ≡ true) (sym m) (later p.seq hp) in
      let next : (p.seq == w.ack) ≡ true = ground arith in
      let empty : diff (incr p.seq) (incr w.ack) ≡ 0 = omega (arith, a) in
      rw (newer, next, empty) (record { delivered = refl; next = ap incr a; latest = refl })

  recv_opened-First :
      (b : Bool)
      → w.ack ≡ p.seq
      → w.max ≡ sub p.seq 1
      → 0 < w.win
      → w.win < 32767
      → (entry w p.seq).received ≡ false
      → First p (recv_opened b p w)
  unfolding recv_opened
  recv_opened-First b a m w0 w1 e =
      let behind : lt p.seq w.ack ≡ false =
        subst (λ (t : ℕ). lt p.seq t ≡ false) (sym a) (not_before p.seq hp) in
      let inside : ge p.seq (add w.ack w.win) ≡ false =
        subst (λ (t : ℕ). ge p.seq (add t w.win) ≡ false) (sym a)
          (not_after p.seq w.win hp w0 w1) in
      rw (behind, inside, e, recv_opened) (file_packet-First b a m)

  recv_data-First :
      (b : Bool)
      → w.ack ≡ p.seq
      → w.max ≡ sub p.seq 1
      → 0 < w.win
      → w.win < 32767
      → (entry w p.seq).received ≡ false
      → p.control ≡ []
      → First p (recv_data b p w)
  unfolding recv_data handle_set_unack
  recv_data-First b a m w0 w1 e c =
      let same : handle_set_unack p.control w ≡ w = ap (λ ms. handle_set_unack ms w) c in
      subst (λ (v : RecvWindow). First p (recv_opened b p v)) (sym same)
        (recv_opened-First b a m w0 w1 e)

-- A packet from `me` to `node` without data and without a sequence number, with the statistics for its
-- only control message.
pub record IsAck (me node : NodeId) (stats : ControlMsg) (a : NetPacket) : Type 0 where
  pub from : a.curhop ≡ me
  pub to : a.nexthop ≡ node
  pub empty : a.data_len ≡ 0
  pub unnumbered : a.has_seq ≡ false
  pub not_syn : a.syn ≡ false
  pub reports : a.control ≡ stats ∷ []

-- The window that `ack` leaves differs in one flag.
record Acked (l : Local) (stats : ControlMsg) (r : Receiver) (o : Option NetPacket × Receiver)
    : Type 0 where
  pub sent : (a : NetPacket) × IsAck l.my_id r.node stats a × (o.0 ≡ some a)
  pub same_ack : o.1.window.ack ≡ r.window.ack
  pub same_max : o.1.window.max ≡ r.window.max
  pub same_win : o.1.window.win ≡ r.window.win
  pub same_entries : o.1.window.entries ≡ r.window.entries

ack-Acked :
    (l : Local) (stats : ControlMsg) (r : Receiver)
    → l.has_queue ≡ true
    → l.can_transmit ≡ true
    → le (incr r.window.ack) r.window.max ≡ false
    → lt r.window.ack r.window.max ≡ false
    → Acked l stats r (ack l stats r)
unfolding ack feedback_packet append_feedback
ack-Acked l stats r q t h k = elim (Bool-cases l.selective_ack) [
  | inl e ↦
      let nothing = nothing_kept (l.empty_size + ctrlsize 3) in
      rw (q, t, e, ack)
        (record {
          sent = (
            _,
            record {
              from = refl;
              to = refl;
              empty = refl;
              unnumbered = refl;
              not_syn = refl;
              reports = ap (◌∷◌ stats) nothing;
            },
            refl,
          );
          same_ack = refl;
          same_max = refl;
          same_win = refl;
          same_entries = refl;
        })
  | inr e ↦
      rw (q, t, e, ack)
        (record {
          sent = (
            _,
            record {
              from = refl;
              to = refl;
              empty = refl;
              unnumbered = refl;
              not_syn = refl;
              reports = refl;
            },
            refl,
          );
          same_ack = refl;
          same_max = refl;
          same_win = refl;
          same_entries = refl;
        })
]
  where
    nothing_kept : (size : ℕ) → prune l.mtu size (sacks r.window) ≡ []
    nothing_kept size = ap (prune l.mtu size) (sacks-quiet r.window h k) ∙ prune-nothing l.mtu size

module _ (ds : Doubles) (s : Settings ds) (h : Heard) (hp : h.pkt.seq < 65536) where
  abbrev pub fresh : ℕ → Receiver
  fresh k = new_receiver h.pkt.curhop h.pkt.seq s.recvwin k

  -- What the sender gets and what goes on.
  pub record Opened (r : Receiver × List Output) : Type 0 where
    pub answer :
        (a : NetPacket) × IsAck s.here.my_id h.pkt.curhop h.stats a
        × (r.1 ≡ push_hi a ∷ deliver (record (h.pkt) { control = [] }) ∷ [])
    pub next : r.0.window.ack ≡ incr h.pkt.seq
    pub latest : r.0.window.max ≡ h.pkt.seq

  first_place :
      (k : ℕ) (w : RecvWindow)
      → w.entries ≡ (fresh k).window.entries
      → (entry w h.pkt.seq).received ≡ false
  unfolding new_receiver new_window
  first_place k w e =
      let es = replicate s.recvwin cleared in
      ap (λ (t : List Entry). (get_or t (h.pkt.seq % length t) cleared).received) e
      ∙ ap (λ (t : Entry). t.received) (get_or-replicate s.recvwin cleared (h.pkt.seq % length es))

  nothing_yet :
      (k : ℕ)
      → (le (incr (fresh k).window.ack) (fresh k).window.max ≡ false)
        × (lt (fresh k).window.ack (fresh k).window.max ≡ false)
  unfolding new_receiver new_window le lt
  nothing_yet k = (ground arith, ground arith)

  filled-Opened :
      (k : ℕ) (o : Option NetPacket × Receiver)
      → Acked s.here h.stats (fresh k) o
      → h.pkt.control ≡ []
      → 0 < s.recvwin
      → s.recvwin < 32767
      → Opened (filled ds s h o)
  unfolding filled new_receiver new_window
  filled-Opened k o a c w0 w1 =
      let f =
        recv_data-First h.pkt o.1.window hp s.enforce_ordering a.same_ack a.same_max
          (omega (arith, a.same_win)) (omega (arith, a.same_win))
          (first_place k o.1.window a.same_entries) c in
      record {
        answer = (a.sent.0, a.sent.1, rw (a.sent.2, f.delivered) refl);
        next = f.next;
        latest = f.latest;
      }

  pub fill-Opened :
      (k : ℕ)
      → h.pkt.syn ≡ true
      → h.pkt.control ≡ []
      → s.here.has_queue ≡ true
      → s.here.can_transmit ≡ true
      → 0 < s.recvwin
      → s.recvwin < 32767
      → Opened (fill ds s h (fresh k))
  unfolding fill
  fill-Opened k sy c q t w0 w1 =
      let o = ack s.here h.stats (fresh k) in
      let same : (if h.pkt.syn then o else (none, start_sack_timer s.here h.now (fresh k))) ≡ o =
        rw sy refl in
      subst (λ (p : Option NetPacket × Receiver). Opened (filled ds s h p)) (sym same)
        (filled-Opened k o
          (ack-Acked s.here h.stats (fresh k) q t (nothing_yet k).0 (nothing_yet k).1) c w0 w1)
