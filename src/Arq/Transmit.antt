-- ===== src/Arq/Transmit.antt =====
-- `getPacket` and `pull` of src/mac/SmartController.cc: numbering packets, keeping those sent.
pub mod Numbering
pub mod FirstPacket
mod Tests
use dragonradio.Prelude.{
  ℕ, ◌+◌, ◌-◌, Bool, true, false, not, ◌&&◌, ◌||◌, Option, none, some, List, [], ◌∷◌, ◌++◌,
  if◌then◌else◌, ◌==◌, ltb, is_some,
}
use dragonradio.Seq.{Seq, lt, gt, ge, add, incr}
use dragonradio.Packet.{NetPacket, NodeId, node_broadcast, set_unack, should_drop, deadline_passed}
use dragonradio.Arq.Send.{
  SendWindow, Entry, Action, set_status, Env, entry, put, may_drop, drop_entry, outside,
}

-- `sendw.seq >= sendw.unack + sendw.win`
abbrev pub is_full : SendWindow → Bool
is_full w = ge w.seq (add w.unack w.win)

-- The oldest packet makes room if it may be dropped; `none` is a null dereference by `mayDrop`.
abbrev pub drop_oldest : SendWindow → Option NetPacket → Option (SendWindow × List Action)
drop_oldest w none = none
drop_oldest w (some p) = some (if may_drop p then drop_entry w.unack w else (w, []))

unfoldable pub make_room : SendWindow → Option (SendWindow × List Action)
make_room w = if is_full w then drop_oldest w (entry w w.unack).pkt else some (w, [])

-- `sendw[sendw.unack] && !sendw[sendw.unack].mayDrop(...)`
abbrev pub must_wait : Option NetPacket → Bool
must_wait none = false
must_wait (some p) = not (may_drop p)

-- The packet with its number, and the SYN flag if it opens the connection.
abbrev pub numbered : NetPacket → SendWindow → NetPacket
numbered p w = record p {
  hdr = record (p.hdr) { seq = w.seq; syn = if w.new_window then true else p.syn };
  has_seq = true;
}

-- From `pkt->hdr.seq = sendw.seq++` to the end of the branch.
unfoldable pub number : Bool → NetPacket → SendWindow → NetPacket × SendWindow × List Action
number move_along p w =
    let w' = record w { seq = incr w.seq; new_window = false } in
    let close =
      is_full w' && (must_wait (entry w' w'.unack).pkt || not move_along || w'.win == 1) in
    (numbered p w, w', if close then set_status false ∷ [] else [])

-- The branch of `getPacket` for a packet that has no number yet.
unfoldable pub assign_seq :
    Bool → NetPacket → SendWindow → Option (NetPacket × SendWindow × List Action)
unfolding make_room number
assign_seq move_along p w = elim (make_room w) [
  | none ↦ none
  | some (w₁, acts₁) ↦ let (p', w₂, acts₂) = number move_along p w₁ in some (p', w₂, acts₁ ++ acts₂)
]

-- The branch for a packet with a number, a retransmission; without a packet, `getPacket` tries the
-- next one.
unfoldable pub admit : ℕ → NetPacket → SendWindow → Option NetPacket × SendWindow × List Action
unfolding should_drop drop_entry
admit now p w =
    let (w', acts) = drop_entry p.seq w in
    if lt p.seq w.unack
    then (none, w, [])
    else if ge p.seq (add w.unack w.win)
    then (none, w, [])
    else if should_drop p now
    then (none, w', acts)
    else (some p, w, [])

-- What `pull` reads of the controller and of the destination.
pub record TxConfig : Type 0 where
  pub decrease_retrans_mcsidx : Bool
  pub mcsidx_min : ℕ
  pub mcsidx_init : ℕ
  pub dest_can_transmit : Bool

-- "Apply TX params": the MCS index for the packet.
unfoldable pub tx_mcsidx : TxConfig → NetPacket → SendWindow → ℕ
tx_mcsidx c p w =
    if c.dest_can_transmit
    then (if c.decrease_retrans_mcsidx
          && p.retransmission
          && is_some p.deadline
          && p.mcsidx == w.mcsidx
          && ltb c.mcsidx_min p.mcsidx
        then p.mcsidx - 1
        else w.mcsidx)
    else c.mcsidx_init

-- The packet as `pull` sends it and as the window keeps it, which is the same object.
unfoldable pub outgoing : TxConfig → NetPacket → SendWindow → NetPacket
unfolding tx_mcsidx
outgoing c p w = record p {
  mcsidx = tx_mcsidx c p w;
  nretrans = if p.retransmission then p.nretrans + 1 else p.nretrans;
  control = if w.send_set_unack then p.control ++ set_unack w.unack ∷ [] else p.control;
}

-- `pull` from "Update our send window if this packet has data" on; without a packet, `pull` goes
-- back to `get_packet`.
unfoldable pub keep_sent : TxConfig → ℕ → NetPacket → SendWindow → Option NetPacket × SendWindow
unfolding outgoing
keep_sent c now p w =
    let q = outgoing c p w in
    let e = record (entry w p.seq) { pkt = some q; sent_at = now } in
    let w' = record (put w p.seq e) {
      max = if gt p.seq w.max then p.seq else w.max;
      send_set_unack = false;
    } in
    if outside w p.seq then (none, w) else (some q, w')
