-- ===== src/Arq/Recv.antt =====
-- The receive window of src/mac/SmartController.{hh,cc}. A function that pushes packets to
-- `radio_out` returns them, first pushed first, beside the new window.
pub mod Filed
pub mod Fill
pub mod Loops
pub mod Advance
pub mod Drain
pub mod Accept
pub mod Deliver
pub mod File
pub mod Receive
pub mod Stall
pub mod Order
mod Tests
use dragonradio.Prelude.{
  ℕ, zero, suc, ◌+◌, ◌%◌, Bool, true, false, not, ◌&&◌, ◌||◌, Option, none, some, List, [], ◌∷◌,
  ◌++◌, length, get_or, set, replicate, if◌then◌else◌, ◌==◌,
}
use dragonradio.Seq.{Seq, diff, lt, le, gt, ge, add, sub, incr}
use dragonradio.Packet.{
  RadioPacket, ControlMsg, hello, timestamp, timestamp_echo, receiver_stats, nak, selective_ack,
  set_unack,
}

-- `RecvWindow::Entry`
pub record Entry : Type 0 where
  pub received : Bool
  pub delivered : Bool
  pub pkt : Option RadioPacket

-- The constructor of `RecvWindow::Entry`, and the state after its `reset`.
abbrev pub cleared : Entry
cleared = record { received = false; delivered = false; pkt = none }

-- `operator =(std::shared_ptr<RadioPacket>&&)`
abbrev pub holding : RadioPacket → Entry
holding p = record { received = true; delivered = false; pkt = some p }

-- `alreadyDelivered`
abbrev pub already_delivered : Entry → Entry
already_delivered e = record e { received = true; delivered = true }

-- `struct RecvWindow`, less its statistics and the state of the explicit NAKs.
pub record RecvWindow : Type 0 where
  pub ack : Seq
  pub max : Seq
  pub max_timestamp : ℕ
  pub win : ℕ
  pub need_selective_ack : Bool
  pub timer_for_ack : Bool
  pub entries : List Entry

-- The constructor `RecvWindow(n, controller, seq, win, nak_win)`.
unfoldable pub new_window : Seq → ℕ → RecvWindow
new_window seq win = record {
  ack = seq;
  max = sub seq 1;
  max_timestamp = 0;
  win = win;
  need_selective_ack = false;
  timer_for_ack = false;
  entries = replicate win cleared;
}

-- `operator[]`, read and written.
abbrev pub entry : RecvWindow → Seq → Entry
entry w seq = get_or w.entries (seq % length w.entries) cleared

abbrev pub put : RecvWindow → Seq → Entry → RecvWindow
put w seq e = record w { entries = set w.entries (seq % length w.entries) e }

-- What `radio_out.push` is given for an entry.
abbrev pub pushed : Option RadioPacket → List RadioPacket
pushed none = []
pushed (some p) = p ∷ []

-- `if (entry.pkt && !entry.delivered) radio_out.push(std::move(entry.pkt))`. The drain loop does not
-- test `entry.pkt`: it would push a null pointer where this pushes nothing, but an entry that is
-- received and not delivered holds a packet.
abbrev pub undelivered : Entry → List RadioPacket
undelivered e = if e.delivered then [] else pushed e.pkt

-- The first loop of `advanceRecvWindow`: deliver and release the entries before `forget`.
pub forget_loop : ℕ → Seq → Seq → RecvWindow → RecvWindow × List RadioPacket
forget_loop zero seq forget w = (w, [])
forget_loop (suc f) seq forget w = elim (lt seq forget) [
  | false ↦ (w, [])
  | true ↦
      let (w', out) = forget_loop f (incr seq) forget (put w seq cleared) in
      (w', undelivered (entry w seq) ++ out)
]

-- `advanceRecvWindow`. The loop makes at most `forget - ack` rounds.
unfoldable pub advance_recv_window : Seq → RecvWindow → RecvWindow × List RadioPacket
unfolding forget_loop
advance_recv_window seq w =
    let new_ack = sub (add seq 1) w.win in
    let forget = if gt new_ack w.max then add w.max 1 else new_ack in
    let (w', out) = forget_loop (diff forget w.ack) w.ack forget w in
    (record w' { ack = new_ack }, out)

-- The loop of `handleSetUnack`, which releases entries and delivers nothing.
pub release_loop : ℕ → Seq → Seq → RecvWindow → RecvWindow
release_loop zero seq next w = w
release_loop (suc f) seq next w = elim (lt seq next) [
  | false ↦ w
  | true ↦ release_loop f (incr seq) next (put w seq cleared)
]

-- `handleSetUnack`, for one message.
unfoldable pub set_unack_to : Seq → RecvWindow → RecvWindow
unfolding release_loop
set_unack_to next w =
    if gt next w.ack then record (release_loop (diff next w.ack) w.ack next w) { ack = next } else w

-- `handleSetUnack`
unfoldable pub handle_set_unack : List ControlMsg → RecvWindow → RecvWindow
handle_set_unack [] w = w
handle_set_unack (set_unack next ∷ ms) w = handle_set_unack ms (set_unack_to next w)
handle_set_unack (hello _ ∷ ms) w = handle_set_unack ms w
handle_set_unack (timestamp _ ∷ ms) w = handle_set_unack ms w
handle_set_unack (timestamp_echo _ _ _ ∷ ms) w = handle_set_unack ms w
handle_set_unack (receiver_stats _ _ ∷ ms) w = handle_set_unack ms w
handle_set_unack (nak _ ∷ ms) w = handle_set_unack ms w
handle_set_unack (selective_ack _ _ ∷ ms) w = handle_set_unack ms w

-- The last loop of `received`: deliver entries in order until a hole.
unfoldable pub drain_loop : ℕ → Seq → RecvWindow → RecvWindow × List RadioPacket
drain_loop zero seq w = (w, [])
drain_loop (suc f) seq w = elim (le seq w.max && (entry w seq).received) [
  | false ↦ (w, [])
  | true ↦
      let (w', out) = drain_loop f (incr seq) (record (put w seq cleared) { ack = incr w.ack }) in
      (w', undelivered (entry w seq) ++ out)
]

-- `for (auto seq = recvw.ack; seq <= recvw.max; ++seq)`: at most `max + 1 - ack` rounds.
unfoldable pub drain : RecvWindow → RecvWindow × List RadioPacket
unfolding drain_loop
drain w = drain_loop (diff (incr w.max) w.ack) w.ack w

-- `if (pkt->hdr.seq > recvw.max) { ... }`
unfoldable pub update_max : Seq → ℕ → RecvWindow → RecvWindow
update_max seq time w = if gt seq w.max then record w { max = seq; max_timestamp = time } else w

-- The choice between sending a packet on, sending it on ahead of a hole, and keeping it.
-- `clearControl` has left no control message in `p`.
unfoldable pub accept : Bool → RadioPacket → RecvWindow → RecvWindow × List RadioPacket
accept enforce_ordering p w =
    let ahead = put w p.seq (already_delivered (entry w p.seq)) in
    if p.seq == w.ack
    then (record w { ack = incr w.ack }, p ∷ [])
    else if not enforce_ordering && not p.is_tcp
    then (ahead, p ∷ [])
    else (put w p.seq (holding p), [])

-- From "Update the max seq number we've received" to the end of `received`.
unfoldable pub file_packet : Bool → RadioPacket → RecvWindow → RecvWindow × List RadioPacket
unfolding update_max accept drain
file_packet enforce_ordering pkt w =
    let p = record pkt { control = [] } in
    let (w₁, out₁) = accept enforce_ordering p (update_max p.seq p.timestamp w) in
    let (w₂, out₂) = drain w₁ in (w₂, out₁ ++ out₂)

-- `received` from "Drop this packet if it is before our receive window" on.
unfoldable pub recv_opened : Bool → RadioPacket → RecvWindow → RecvWindow × List RadioPacket
unfolding advance_recv_window file_packet
recv_opened enforce_ordering pkt w =
    let moved = advance_recv_window pkt.seq w in
    let (w', out) = file_packet enforce_ordering pkt moved.0 in
    if lt pkt.seq w.ack
    then (w, [])
    else if ge pkt.seq (add w.ack w.win)
    then (w', moved.1 ++ out)
    else if (entry w pkt.seq).received
    then (w, [])
    else file_packet enforce_ordering pkt w

-- `received` from "Handle sender setting unack" on, for a packet with data: the caller has
-- started the SACK timer, or sent the ACK of a SYN.
unfoldable pub recv_data : Bool → RadioPacket → RecvWindow → RecvWindow × List RadioPacket
unfolding handle_set_unack set_unack_to recv_opened
recv_data enforce_ordering pkt w = recv_opened enforce_ordering pkt (handle_set_unack pkt.control w)
