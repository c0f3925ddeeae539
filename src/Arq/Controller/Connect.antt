-- ===== src/Arq/Controller/Connect.antt =====
-- A whole call of `received` for the packet that opens a connection.
use dragonradio.Prelude.{
  ℕ, ◌<◌, ◌≡◌, ◌≢◌, ◌⊎◌, inl, inr, refl, sym, ap, ◌∙◌, subst, Bool, true, false, Option, none, some,
  List, [], ◌∷◌, ◌++◌, arith, Bool-cases, if◌then◌else◌, ◌==◌, ==_refl,
}
use dragonradio.Double.{Doubles}
use dragonradio.Seq.{lt, ge, incr}
use dragonradio.Packet.{NetPacket, NodeId, node_broadcast}
use dragonradio.Arq.Recv.{new_window}
use dragonradio.Arq.Timers.{Receiver, new_receiver}
use dragonradio.Arq.Windows.{
  Output, deliver, push_hi, Settings, Controller, assign, set_recv, keeps_window,
  get_receive_window,
}
use dragonradio.Arq.Controller.{
  Heard, fill, take_data, take_feedback, heed, take_valid, take_refused, take_broadcast, opened,
  skips, received,
}
use dragonradio.Arq.Controller.Syn.{IsAck, fresh, Opened, fill-Opened}

otherwise : {A : Type 0} (c : Bool) (x y : A) → c ≡ false → (if c then x else y) ≡ y
otherwise c x y e = rw e refl

module _ (ds : Doubles) (s : Settings ds) (roll : ds.Carrier) (h : Heard)
    (hp : h.pkt.seq < 65536) where
  -- There is no window for the sender yet, or the packet is a SYN outside it.
  unfoldable pub IsNewcomer : Controller ds → Type 0
  IsNewcomer c =
      (c.recv h.pkt.curhop ≡ none)
      ⊎ ((old : Receiver) × (c.recv h.pkt.curhop ≡ some old)
          × (keeps_window ds h.pkt.seq h.pkt.syn old.window ≡ false))

  abbrev newest : Receiver
  newest = fresh ds s h hp s.here.explicit_nak_win_size

  abbrev joined : Controller ds → Controller ds
  joined c = set_recv ds h.pkt.curhop newest c

  new_window_of :
      (c : Controller ds)
      → IsNewcomer c
      → get_receive_window ds s h.pkt.curhop h.pkt.seq h.pkt.syn c ≡ (newest, joined c)
  unfolding IsNewcomer get_receive_window
  new_window_of c (inl e) = rw (e, get_receive_window) refl
  new_window_of c (inr (old, e, k)) = rw (e, k, get_receive_window) refl

  keeps_own :
      (k : ℕ)
      → 0 < s.recvwin
      → s.recvwin < 32767
      → keeps_window ds h.pkt.seq h.pkt.syn (fresh ds s h hp k).window ≡ true
  unfolding new_receiver new_window lt ge
  keeps_own k w0 w1 = ground arith

  old_window_of :
      (c : Controller ds) (r : Receiver)
      → c.recv h.pkt.curhop ≡ some r
      → keeps_window ds h.pkt.seq h.pkt.syn r.window ≡ true
      → get_receive_window ds s h.pkt.curhop h.pkt.seq h.pkt.syn c ≡ (r, c)
  unfolding get_receive_window
  old_window_of c r e k = rw (e, k, get_receive_window) refl

  -- The sender gets an ACK-only packet, in front of all others, with the statistics in it; then the
  -- packet goes on, and the window expects the next one.
  pub record Connected (o : Controller ds × List Output) : Type 0 where
    pub answer :
        (a : NetPacket) × IsAck s.here.my_id h.pkt.curhop h.stats a
        × (o.1 ≡ push_hi a ∷ deliver (record (h.pkt) { control = [] }) ∷ [])
    pub window :
        (r : Receiver) × (o.0.recv h.pkt.curhop ≡ some r)
        × (r.window.ack ≡ incr h.pkt.seq)
        × (r.window.max ≡ h.pkt.seq)

  assign-own : {A : Type 0} (n : NodeId) (v : Option A) (m : NodeId → Option A) → assign n v m n ≡ v
  assign-own n v m = rw (==_refl n) refl

  take_data-Connected :
      (c : Controller ds)
      → get_receive_window ds s h.pkt.curhop h.pkt.seq h.pkt.syn c ≡ (newest, c)
      → (h.pkt.data_len == 0) ≡ false
      → Opened ds s h hp (fill ds s h newest)
      → Connected (take_data ds s h c)
  unfolding take_data
  take_data-Connected c e l v =
      rw (e, l)
        (record {
          answer = v.answer;
          window = (
            (fill ds s h newest).0,
            assign-own h.pkt.curhop (some (fill ds s h newest).0) c.recv,
            v.next,
            v.latest,
          );
        })

  heed_send : (c : Controller ds) → (heed ds s h c).send h.pkt.curhop ≡ c.send h.pkt.curhop
  unfolding heed
  heed_send c = elim (Bool-cases h.has_control) [ inl e ↦ rw e refl | inr e ↦ rw e refl ]

  heed_recv : (c : Controller ds) → (heed ds s h c).recv h.pkt.curhop ≡ c.recv h.pkt.curhop
  unfolding heed
  heed_recv c = elim (Bool-cases h.has_control) [ inl e ↦ rw e refl | inr e ↦ rw e refl ]

  quiet_feedback :
      (c : Controller ds) → c.send h.pkt.curhop ≡ none → take_feedback ds s roll h c ≡ (c, [])
  unfolding take_feedback
  quiet_feedback c e = rw (e, take_feedback) refl

  -- The data, after the feedback.
  abbrev after : Controller ds × List Output → Controller ds × List Output
  after o = ((take_data ds s h o.0).0, o.1 ++ (take_data ds s h o.0).1)

  take_valid-Connected :
      (c : Controller ds)
      → c.send h.pkt.curhop ≡ none
      → c.recv h.pkt.curhop ≡ some newest
      → keeps_window ds h.pkt.seq h.pkt.syn newest.window ≡ true
      → (h.pkt.nexthop == node_broadcast) ≡ false
      → (h.pkt.data_len == 0) ≡ false
      → Opened ds s h hp (fill ds s h newest)
      → Connected (take_valid ds s roll h c)
  unfolding take_valid
  take_valid-Connected c e f k b l v =
      let c₀ = heed ds s h c in
      let quiet : c₀.send h.pkt.curhop ≡ none = heed_send c ∙ e in
      let known : c₀.recv h.pkt.curhop ≡ some newest = heed_recv c ∙ f in
      let told = take_feedback ds s roll h c₀ in
      let nothing : told ≡ (c₀, []) = quiet_feedback c₀ quiet in
      let all : take_valid ds s roll h c ≡ after told =
        otherwise (h.pkt.nexthop == node_broadcast) (c₀, take_broadcast ds h) (after told) b in
      subst Connected (sym (all ∙ ap after nothing))
        (take_data-Connected c₀ (old_window_of c₀ newest known k) l v)

  -- At a SYN of a node that is new here, or outside the window that its sender has here, exactly two
  -- packets leave, in this order: one to the sender, without data, sequence number or SYN and with the
  -- statistics for its only control message, goes to the head of the network queue, and the SYN itself
  -- goes on without its control messages. The new window expects the number after it. The packet is valid,
  -- is for this node, has data and no control message, nothing has been sent to its sender, this node
  -- can transmit and has a network queue, and the window has between 1 and 32766 places.
  pub received-Connected :
      (c : Controller ds)
      → IsNewcomer c
      → c.send h.pkt.curhop ≡ none
      → h.pkt.nexthop ≡ s.here.my_id
      → h.pkt.nexthop ≢ node_broadcast
      → h.invalid_header ≡ false
      → h.invalid_payload ≡ false
      → h.has_data ≡ true
      → h.pkt.data_len ≢ 0
      → h.pkt.syn ≡ true
      → h.pkt.control ≡ []
      → s.here.has_queue ≡ true
      → s.here.can_transmit ≡ true
      → 0 < s.recvwin
      → s.recvwin < 32767
      → Connected (received ds s roll h c)
  unfolding received opened
  received-Connected c new quiet me nb ih ip hd dl sy nc q t w0 w1 =
      let b : (h.pkt.nexthop == node_broadcast) ≡ false = ground arith in
      let l : (h.pkt.data_len == 0) ≡ false = ground arith in
      let heard : skips ds s h ≡ false = ground arith in
      let open_now : opened ds s h c ≡ joined c = rw hd (ap (λ t. t.1) (new_window_of c new)) in
      let valid = take_valid ds s roll h (opened ds s h c) in
      let refuse = take_refused ds s h c in
      let all : received ds s roll h c ≡ take_valid ds s roll h (joined c) =
        otherwise (skips ds s h) (c, []) (if h.invalid_payload then refuse else valid) heard
        ∙ otherwise h.invalid_payload refuse valid ip
        ∙ ap (take_valid ds s roll h) open_now in
      subst Connected (sym all) (
        take_valid-Connected (joined c) quiet (assign-own h.pkt.curhop (some newest) c.recv)
          (keeps_own s.here.explicit_nak_win_size w0 w1) b l
          (fill-Opened ds s h hp s.here.explicit_nak_win_size sy nc q t w0 w1))
