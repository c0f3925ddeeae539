-- ===== src/Arq/Pull.antt =====
-- `pull` of src/mac/SmartController.cc as a whole, with `getPacket`: the packets that `net_in` has are a
-- list, and the time is the same for one call.
pub mod Acked
pub mod Every
mod Tests
use dragonradio.Prelude.{
  ℕ, ◌+◌, Bool, true, false, not, ◌&&◌, Option, none, some, List, [], ◌∷◌, ◌++◌, length, map,
  if◌then◌else◌, ◌==◌,
}
use dragonradio.Double.{Doubles}
use dragonradio.Packet.{NetPacket, NodeId, ControlMsg, node_broadcast}
use dragonradio.Packet.Control.{ctrlsize, encode}
use dragonradio.Arq.Send.{SendWindow, Action}
use dragonradio.Arq.Feedback.{append_feedback}
use dragonradio.Arq.Transmit.{TxConfig, assign_seq, admit, keep_sent}
use dragonradio.Arq.Amc.{Amc}
use dragonradio.Arq.Timers.{Receiver, Local}
use dragonradio.Arq.Windows.{Output, act, Settings, Controller, assign, set_send, get_send_window}

-- What one call of `pull` reads of the settings and its surroundings. Whether a node can transmit, in
-- `tx`, and the statistics to report to it are read for the next hop of each packet.
pub record Sending : Type 0 where
  pub tx : NodeId → TxConfig
  pub move_along : Bool
  pub mcsidx_ack : ℕ
  pub now : ℕ
  pub stats : NodeId → ControlMsg

-- `pkt->size()`
pub control_size : List ControlMsg → ℕ
control_size [] = 0
control_size (m ∷ ms) = length (encode m) + control_size ms

abbrev pub packet_size : Local → NetPacket → ℕ
packet_size l p = l.empty_size + p.data_len + control_size p.control

-- "If we have received a packet from the destination, add an ACK": the packet, whether it carries
-- selective ACKs, and the receive window.
unfoldable pub with_ack :
    Local → ControlMsg → NetPacket → Option Receiver → NetPacket × Bool × Option Receiver
unfolding append_feedback
with_ack l stats p none = (p, false, none)
with_ack l stats p (some r) =
    let q = record p { hdr = record (p.hdr) { ack_flag = true; ack = r.window.ack } } in
    let (ms, flag, w) =
      append_feedback l.selective_ack l.mtu (packet_size l q + ctrlsize 3) stats r.window in
    if r.window.need_selective_ack
    then (record q { control = q.control ++ ms }, flag, some (record r { window = w }))
    else (q, false, some r)

module _ (ds : Doubles) where
  -- `getPacket`, for one packet of the network: the packet to send, if it is one; `none` is a null
  -- dereference.
  abbrev pub numbered_in :
      NodeId
      → Amc ds
      → Controller ds
      → List Output
      → Option (NetPacket × SendWindow × List Action)
      → Option (Option NetPacket × Controller ds × List Output)
  numbered_in n a c out none = none
  numbered_in n a c out (some (q, w, acts)) =
      some (some q, set_send ds n (record a { window = w }) c, out ++ map (act n) acts)

  unfoldable pub get_packet :
      Settings ds
      → Sending
      → NetPacket
      → Controller ds
      → Option (Option NetPacket × Controller ds × List Output)
  unfolding get_send_window assign_seq admit
  get_packet s e p c =
      let n = p.nexthop in
      let (a, c₁, out) = get_send_window ds s n c in
      let (o, w, acts) = admit e.now p a.window in
      if n == node_broadcast
      then some (some p, c, [])
      else if p.data_len == 0
      then some (some p, c₁, out)
      else if not p.has_seq
      then numbered_in n a c₁ out (assign_seq e.move_along p a.window)
      else some (o, set_send ds n (record a { window = w }) c₁, out ++ map (act n) acts)

  -- `pull` behind `getPacket`, for a packet to another node.
  unfoldable pub address :
      Settings ds
      → Sending
      → NetPacket
      → Controller ds
      → Option NetPacket × Bool × Controller ds × List Output
  unfolding with_ack get_send_window keep_sent
  address s e p c =
      let n = p.nexthop in
      let (q, flag, r) = with_ack s.here (e.stats n) p (c.recv n) in
      let c₁ = record c { recv = assign n r c.recv } in
      let (a, c₂, out) = get_send_window ds s n c₁ in
      let (o, w) = keep_sent (e.tx n) e.now q a.window in
      if p.data_len == 0
      then (some (record q { mcsidx = e.mcsidx_ack }), flag, c₁, [])
      else (o, flag, set_send ds n (record a { window = w }) c₂, out)

  unfoldable pub send_out :
      Settings ds
      → Sending
      → NetPacket
      → Controller ds
      → Option NetPacket × Bool × Controller ds × List Output
  unfolding address
  send_out s e p c =
      if p.nexthop == node_broadcast
      then (some (record p { mcsidx = s.here.mcsidx_broadcast }), false, c, [])
      else address s e p c

  abbrev pub Pulled : Type 0
  Pulled = Option (Option NetPacket × Bool × Controller ds × List Output)

  abbrev pub later : List Output → Pulled → Pulled
  later out none = none
  later out (some (o, flag, c, outs)) = some (o, flag, c, out ++ outs)

  -- Without a packet that may go, `pull` goes back to `getPacket`: `next` is what it does then.
  abbrev pub sent_or_next :
      Option NetPacket × Bool × Controller ds × List Output → (Controller ds → Pulled) → Pulled
  sent_or_next (none, flag, c, out) next = later out (next c)
  sent_or_next (some q, flag, c, out) next = some (some q, flag, c, out)

  abbrev pub got_or_next :
      Settings ds
      → Sending
      → Option (Option NetPacket × Controller ds × List Output)
      → (Controller ds → Pulled)
      → Pulled
  got_or_next s e none next = none
  got_or_next s e (some (none, c, out)) next = later out (next c)
  got_or_next s e (some (some p, c, out)) next = later out (sent_or_next (send_out s e p c) next)

  unfoldable pub pull : Settings ds → Sending → List NetPacket → Controller ds → Pulled
  unfolding get_packet send_out
  pull s e [] c = some (none, false, c, [])
  pull s e (p ∷ ps) c = got_or_next s e (get_packet s e p c) (λ c'. pull s e ps c')
