-- ===== src/Arq/Controller/Frame.antt =====
-- A call of `received` concerns the sender of the packet only, and heeds no packet that is not for this
-- node.
use dragonradio.Prelude.{
  ◌≡◌, ◌≢◌, inl, inr, refl, ◌∙◌, Bool, true, false, Option, some, List, [], arith, Bool-cases,
  Option-cases, if◌then◌else◌, ◌==◌,
}
use dragonradio.Double.{Doubles}
use dragonradio.Seq.{Seq}
use dragonradio.Packet.{NodeId, node_broadcast}
use dragonradio.Arq.Amc.{Amc}
use dragonradio.Arq.Hello.{process_control}
use dragonradio.Arq.Timers.{Receiver, new_receiver}
use dragonradio.Arq.Windows.{
  Output, Settings, Controller, assign, set_send, set_recv, keeps_window, get_receive_window,
}
use dragonradio.Arq.Controller.{
  Heard, refused, handle_ack_nak, fill, take_data, take_feedback, heed, take_valid, take_refused,
  opened, skips, received,
}

module _ (ds : Doubles) where
  -- The windows of the node `k`, and what it is known by, are the same.
  pub record Spared (k : NodeId) (c c' : Controller ds) : Type 0 where
    pub same_send : c'.send k ≡ c.send k
    pub same_recv : c'.recv k ≡ c.recv k
    pub same_known : c'.clocks.nodes k ≡ c.clocks.nodes k

  Spared-refl : (k : NodeId) (c : Controller ds) → Spared k c c
  Spared-refl k c = record { same_send = refl; same_recv = refl; same_known = refl }

  Spared-trans : (k : NodeId) (a b c : Controller ds) → Spared k a b → Spared k b c → Spared k a c
  Spared-trans k a b c x y = record {
    same_send = y.same_send ∙ x.same_send;
    same_recv = y.same_recv ∙ x.same_recv;
    same_known = y.same_known ∙ x.same_known;
  }

  if-Spared :
      (k : NodeId) (c : Controller ds) (b : Bool) (x y : Controller ds × List Output)
      → Spared k c x.0
      → Spared k c y.0
      → Spared k c (if b then x else y).0
  if-Spared k c true x y p q = p
  if-Spared k c false x y p q = q

  assign-other :
      {A : Type 0} (k n : NodeId) (v : Option A) (m : NodeId → Option A)
      → k ≢ n
      → assign n v m k ≡ m k
  assign-other k n v m d = let e : (k == n) ≡ false = ground arith in rw e refl

  set_send-Spared :
      (k n : NodeId) (r : Amc ds) (c : Controller ds) → k ≢ n → Spared k c (set_send ds n r c)
  set_send-Spared k n r c d = record {
    same_send = assign-other k n (some r) c.send d;
    same_recv = refl;
    same_known = refl;
  }

  set_recv-Spared :
      (k n : NodeId) (r : Receiver) (c : Controller ds) → k ≢ n → Spared k c (set_recv ds n r c)
  set_recv-Spared k n r c d = record {
    same_send = refl;
    same_recv = assign-other k n (some r) c.recv d;
    same_known = refl;
  }

  get_receive_window-Spared :
      (s : Settings ds) (k n : NodeId) (seq : Seq) (syn : Bool) (c : Controller ds)
      → k ≢ n
      → Spared k c (get_receive_window ds s n seq syn c).1
  unfolding get_receive_window
  get_receive_window-Spared s k n seq syn c d =
      let r = new_receiver n seq s.recvwin s.here.explicit_nak_win_size in
      elim (Option-cases (c.recv n)) [
        | inl e ↦ rw (e, get_receive_window) (set_recv-Spared k n r c d)
        | inr (old, e) ↦ elim (Bool-cases (keeps_window ds seq syn old.window)) [
          | inl y ↦ rw (e, y, get_receive_window) (Spared-refl k c)
          | inr y ↦ rw (e, y, get_receive_window) (set_recv-Spared k n r c d)
        ]
      ]

  module _ (s : Settings ds) (roll : ds.Carrier) (h : Heard) (k : NodeId)
      (d : k ≢ h.pkt.curhop) where
    take_data-Spared : (c : Controller ds) → Spared k c (take_data ds s h c).0
    unfolding take_data
    take_data-Spared c =
        let n = h.pkt.curhop in
        let g = get_receive_window ds s n h.pkt.seq h.pkt.syn c in
        elim (Bool-cases (h.pkt.data_len == 0)) [
          | inl e ↦ rw e (Spared-refl k c)
          | inr e ↦ rw e (
              Spared-trans k c g.1 (set_recv ds n (fill ds s h g.0).0 g.1)
                (get_receive_window-Spared s k n h.pkt.seq h.pkt.syn c d)
                (set_recv-Spared k n (fill ds s h g.0).0 g.1 d))
        ]

    take_feedback-Spared : (c : Controller ds) → Spared k c (take_feedback ds s roll h c).0
    unfolding take_feedback
    take_feedback-Spared c = elim (Option-cases (c.send h.pkt.curhop)) [
      | inl e ↦ rw (e, take_feedback) (Spared-refl k c)
      | inr (r, e) ↦
          rw (e, take_feedback)
            (set_send-Spared k h.pkt.curhop (handle_ack_nak ds s roll h r).0 c d)
    ]

    heed-Spared : (c : Controller ds) → Spared k c (heed ds s h c)
    unfolding heed process_control
    heed-Spared c = elim (Bool-cases h.has_control) [
      | inr e ↦ rw (e, heed) (Spared-refl k c)
      | inl e ↦
          let other : (k == h.pkt.curhop) ≡ false = ground arith in
          rw (e, heed) (record { same_send = refl; same_recv = refl; same_known = rw other refl })
    ]

    take_valid-Spared : (c : Controller ds) → Spared k c (take_valid ds s roll h c).0
    unfolding take_valid
    take_valid-Spared c =
        let c₀ = heed ds s h c in
        let c₁ = (take_feedback ds s roll h c₀).0 in
        elim (Bool-cases (h.pkt.nexthop == node_broadcast)) [
          | inl e ↦ rw e (heed-Spared c)
          | inr e ↦ rw e (
              Spared-trans k c c₀ (take_data ds s h c₁).0 (heed-Spared c) (
                Spared-trans k c₀ c₁ (take_data ds s h c₁).0 (take_feedback-Spared c₀)
                  (take_data-Spared c₁)))
        ]

    take_refused-Spared : (c : Controller ds) → Spared k c (take_refused ds s h c).0
    unfolding take_refused
    take_refused-Spared c =
        let n = h.pkt.curhop in
        let g = get_receive_window ds s n h.pkt.seq h.pkt.syn c in
        let spared = get_receive_window-Spared s k n h.pkt.seq h.pkt.syn c d in
        elim (Bool-cases h.has_data) [
          | inr e ↦ rw e (Spared-refl k c)
          | inl e ↦ elim (Bool-cases (h.pkt.nexthop == node_broadcast)) [
            | inl b ↦ rw (e, b) spared
            | inr b ↦
                rw (e, b)
                  (Spared-trans k c g.1 (set_recv ds n (refused ds s h g.0).0 g.1) spared
                    (set_recv-Spared k n (refused ds s h g.0).0 g.1 d))
          ]
        ]

    opened-Spared : (c : Controller ds) → Spared k c (opened ds s h c)
    unfolding opened
    opened-Spared c = elim (Bool-cases h.has_data) [
      | inl e ↦ rw (e, opened) (get_receive_window-Spared s k h.pkt.curhop h.pkt.seq h.pkt.syn c d)
      | inr e ↦ rw (e, opened) (Spared-refl k c)
    ]

  -- Whatever packet arrives, valid or not, the windows of every node but its sender stay as they are,
  -- and so does what is known of the node.
  pub received-Spared :
      (s : Settings ds) (roll : ds.Carrier) (h : Heard) (k : NodeId) (c : Controller ds)
      → k ≢ h.pkt.curhop
      → Spared k c (received ds s roll h c).0
  unfolding received
  received-Spared s roll h k c d =
      let valid = take_valid ds s roll h (opened ds s h c) in
      let refuse = take_refused ds s h c in
      if-Spared k c (skips ds s h) (c, []) (if h.invalid_payload then refuse else valid)
        (Spared-refl k c)
        (if-Spared k c h.invalid_payload refuse valid (take_refused-Spared s roll h k d c) (
          Spared-trans k c (opened ds s h c) valid.0 (opened-Spared s roll h k d c)
            (take_valid-Spared s roll h k d (opened ds s h c))))
