-- ===== src/Arq/Pull/Every.antt =====
-- All rounds of `pull`.
use dragonradio.Prelude.{
  ◌≡◌, ◌≢◌, inl, inr, refl, sym, ap, ◌∙◌, Bool, true, false, not, Option, none, some, List, [], ◌∷◌,
  Bool-cases, ◌==◌,
}
use dragonradio.Double.{Doubles}
use dragonradio.Seq.{Seq}
use dragonradio.Packet.{NetPacket, NodeId, node_broadcast}
use dragonradio.Arq.Send.{SendWindow, Action}
use dragonradio.Arq.Transmit.{assign_seq, admit}
use dragonradio.Arq.Amc.{Amc}
use dragonradio.Arq.Windows.{Output, Settings, Controller, set_send, get_send_window}
use dragonradio.Arq.Pull.{
  Sending, Pulled, numbered_in, get_packet, send_out, later, sent_or_next, got_or_next, pull,
}
use dragonradio.Arq.Pull.Acked.{
  ack_of, SameAcks, get_send_window-recv, Answers, send_out-Answers, SameAcks-trans, SameAcks-recv,
  send_out-SameAcks,
}

module _ (ds : Doubles) where
  -- A result with a packet answers the packet's destination.
  Good : Controller ds → Pulled ds → Type 0
  Good c o =
      (q : NetPacket) (flag : Bool) (c' : Controller ds) (out : List Output)
      → o ≡ some (some q, flag, c', out)
      → Answers ds c q

  earlier-Answers :
      (c c' : Controller ds) (q : NetPacket) → SameAcks ds c c' → Answers ds c' q → Answers ds c q
  unfolding Answers
  earlier-Answers c c' q m h nb a k = h nb a (m.at q.nexthop ∙ k)

  earlier-Good : (c c' : Controller ds) (o : Pulled ds) → SameAcks ds c c' → Good c' o → Good c o
  unfolding Good
  earlier-Good c c' o m h q flag c'' out e = earlier-Answers c c' q m (h q flag c'' out e)

  later-Good :
      (c : Controller ds) (out : List Output) (o : Pulled ds) → Good c o → Good c (later ds out o)
  unfolding Good
  later-Good c out none h q flag c' out' e = absurd (cc e)
  later-Good c out (some (x, f, d, outs)) h q flag c' out' e =
      let same : x ≡ some q = cc e in
      h q f d outs (ap (λ (t : Option NetPacket). some (t, f, d, outs)) same)

  sent_or_next-Good :
      (c : Controller ds) (next : Controller ds → Pulled ds)
      (r : Option NetPacket × Bool × Controller ds × List Output)
      → ((c' : Controller ds) → SameAcks ds c c' → Good c' (next c'))
      → ((q : NetPacket) → r.0 ≡ some q → Answers ds c q)
      → SameAcks ds c r.2
      → Good c (sent_or_next ds r next)
  unfolding Good
  sent_or_next-Good c next (none, f, d, outs) h a m =
      later-Good c outs (next d) (earlier-Good c d (next d) m (h d m))
  sent_or_next-Good c next (some x, f, d, outs) h a m =
      λ q flag c' out' k. let same : x ≡ q = cc k in a q (ap some same)

  got_or_next-Good :
      (s : Settings ds) (e : Sending) (c : Controller ds) (next : Controller ds → Pulled ds)
      (got : Option (Option NetPacket × Controller ds × List Output))
      → ((o : Option NetPacket) (c' : Controller ds) (out : List Output)
          → got ≡ some (o, c', out)
          → c'.recv ≡ c.recv)
      → ((c' : Controller ds) → SameAcks ds c c' → Good c' (next c'))
      → Good c (got_or_next ds s e got next)
  unfolding Good
  got_or_next-Good s e c next none g h = λ q flag c' out k. absurd (cc k)
  got_or_next-Good s e c next (some (none, d, outs)) g h =
      let m = SameAcks-recv ds c d (g none d outs refl) in
      later-Good c outs (next d) (earlier-Good c d (next d) m (h d m))
  got_or_next-Good s e c next (some (some p, d, outs)) g h =
      let m = SameAcks-recv ds c d (g (some p) d outs refl) in
      let o = sent_or_next ds (send_out ds s e p d) next in
      later-Good c outs o (
        earlier-Good c d o m (
          sent_or_next-Good d next (send_out ds s e p d)
            (λ c' m'. h c' (SameAcks-trans ds c d c' m m')) (λ q. send_out-Answers ds s e p q d)
            (send_out-SameAcks ds s e p d)))

  numbered_in-recv :
      (n : NodeId) (a : Amc ds) (c : Controller ds) (outs : List Output)
      (r : Option (NetPacket × SendWindow × List Action)) (o : Option NetPacket)
      (c' : Controller ds) (out : List Output)
      → numbered_in ds n a c outs r ≡ some (o, c', out)
      → c'.recv ≡ c.recv
  numbered_in-recv n a c outs none o c' out e = absurd (cc e)
  numbered_in-recv n a c outs (some (q, w, acts)) o c' out e =
      let same : set_send ds n (record a { window = w }) c ≡ c' = cc e in
      sym (ap (λ (t : Controller ds). t.recv) same)

  get_packet-recv :
      (s : Settings ds) (e : Sending) (p : NetPacket) (c : Controller ds) (o : Option NetPacket)
      (c' : Controller ds) (out : List Output)
      → get_packet ds s e p c ≡ some (o, c', out)
      → c'.recv ≡ c.recv
  unfolding get_packet
  get_packet-recv s e p c o c' out =
      let n = p.nexthop in
      let g = get_send_window ds s n c in
      let kept = get_send_window-recv ds s n c in
      elim (Bool-cases (n == node_broadcast)) [
        | inl y ↦
            rw y (λ k. let same : c ≡ c' = cc k in sym (ap (λ (t : Controller ds). t.recv) same))
        | inr y ↦ elim (Bool-cases (p.data_len == 0)) [
          | inl z ↦
              rw (y, z)
                (λ k.
                  let same : g.1 ≡ c' = cc k in
                  sym (ap (λ (t : Controller ds). t.recv) same) ∙ kept)
          | inr z ↦ elim (Bool-cases (not p.has_seq)) [
            | inl t ↦
                rw (y, z, t)
                  (λ k.
                    numbered_in-recv n g.0 g.1 g.2 (assign_seq e.move_along p g.0.window) o c' out k
                    ∙ kept)
            | inr t ↦
                rw (y, z, t)
                  (λ k.
                    let w = (admit e.now p g.0.window).1 in
                    let same : set_send ds n (record (g.0) { window = w }) g.1 ≡ c' = cc k in
                    sym (ap (λ (t : Controller ds). t.recv) same) ∙ kept)
          ]
        ]
      ]

  empty-Good : (c : Controller ds) → Good c (some (none, false, c, []))
  unfolding Good
  empty-Good c q flag c' out k = absurd (cc k)

  pull-Good :
      (s : Settings ds) (e : Sending) (ps : List NetPacket) (c : Controller ds)
      → Good c (pull ds s e ps c)
  unfolding pull
  pull-Good s e [] c = empty-Good c
  pull-Good s e (p ∷ ps) c =
      got_or_next-Good s e c (λ c'. pull ds s e ps c') (get_packet ds s e p c)
        (get_packet-recv s e p c) (λ c' m. pull-Good s e ps c')

  -- The packet of a result.
  unfoldable pub packet_of : Pulled ds → Option NetPacket
  packet_of none = none
  packet_of (some (o, flag, c, out)) = o

  Good-packet :
      (c : Controller ds) (o : Pulled ds) (q : NetPacket)
      → Good c o
      → packet_of o ≡ some q
      → Answers ds c q
  unfolding Good packet_of
  Good-packet c none q h e = absurd (cc e)
  Good-packet c (some (x, f, d, outs)) q h e =
      h q f d outs (ap (λ (t : Option NetPacket). some (t, f, d, outs)) e)

  -- When `pull` returns a packet, however many it has passed over, and the packet is not a broadcast and
  -- there is a receive window for its destination, then the packet acknowledges the number that the
  -- window is at.
  pub pull-Answers :
      (s : Settings ds) (e : Sending) (ps : List NetPacket) (c : Controller ds) (q : NetPacket)
      (a : Seq)
      → packet_of (pull ds s e ps c) ≡ some q
      → q.nexthop ≢ node_broadcast
      → ack_of (c.recv q.nexthop) ≡ some a
      → (q.ack_flag ≡ true) × (q.ack ≡ a)
  unfolding Answers
  pull-Answers s e ps c q a k nb h =
      Good-packet c (pull ds s e ps c) q (pull-Good s e ps c) k nb a h
