-- ===== src/Arq/Feedback.antt =====
-- Feedback between the windows, of src/mac/SmartController.cc: `appendFeedback`, `handleNAK` and
-- `handleReceiverStats`. `appendFeedback` is told the packet's size with the statistics appended, by
-- which it decides how many of its selective ACKs fit. The bytes it moves are whole messages.
pub mod Sacks
pub mod Reported
pub mod Quiet
pub mod Nak
mod Tests
use dragonradio.Prelude.{
  ℕ, zero, suc, ◌+◌, ◌-◌, ◌*◌, ◌/◌, min, Bool, true, false, not, ◌||◌, Option, none, some, List, [],
  ◌∷◌, ◌++◌, length, drop, if◌then◌else◌, ltb, is_some,
}
use dragonradio.Seq.{Seq, diff, lt, le, ge, add, incr}
use dragonradio.Packet.{
  ControlMsg, hello, timestamp, timestamp_echo, receiver_stats, nak, selective_ack, set_unack,
}
use dragonradio.Packet.Control.{ctrlsize}
use dragonradio.Arq.Recv
use dragonradio.Arq.Recv.{RecvWindow}
use dragonradio.Arq.Send
use dragonradio.Arq.Send.{SendWindow, outside}

-- The local variables `in_run`, `begin` and `end`.
pub record Run : Type 0 where
  pub in_run : Bool
  pub first : Seq
  pub last : Seq

-- The body of the loop of `appendFeedback`: the selective ACKs that it appends and its variables.
abbrev pub sack_round : Bool → Seq → Run → List ControlMsg × Run
sack_round received seq r =
    if received
    then ([], record { in_run = true; first = if r.in_run then r.first else seq; last = seq })
    else if r.in_run
    then (selective_ack (r.first) (incr r.last) ∷ [], record r { in_run = false })
    else ([], r)

-- `for (Seq seq = recvw.ack + 1; seq <= recvw.max; ++seq)`
pub sack_loop : ℕ → Seq → RecvWindow → Run → List ControlMsg × Run
sack_loop zero seq w r = ([], r)
sack_loop (suc f) seq w r = elim (le seq w.max) [
  | false ↦ ([], r)
  | true ↦
      let (out, r') = sack_round (Recv.entry w seq).received seq r in
      let (outs, r'') = sack_loop f (incr seq) w r' in (out ++ outs, r'')
]

-- "Close out any final run", and the empty range that marks the end of what was received.
abbrev pub close_run : Run → List ControlMsg
close_run r = if r.in_run then selective_ack r.first (incr r.last) ∷ [] else []

abbrev pub mark_end : RecvWindow → Run → List ControlMsg
mark_end w r = if lt r.last w.max then selective_ack (incr w.max) (incr w.max) ∷ [] else []

-- All selective ACKs of a window; the loop makes `max - ack` rounds.
unfoldable pub sacks : RecvWindow → List ControlMsg
unfolding sack_loop
sacks w =
    let start : Run = record { in_run = false; first = w.ack; last = w.ack } in
    let (out, r) = sack_loop (diff w.max w.ack) (incr w.ack) w start in
    out ++ (close_run r ++ mark_end w r)

-- The latest of the selective ACKs, as many as fit a packet that has `size` bytes without them.
unfoldable pub prune : ℕ → ℕ → List ControlMsg → List ControlMsg
prune mtu size ss =
    let n = ctrlsize 5 in
    let total = size + n * length ss in
    if ltb mtu total then drop (min ((total - mtu + n - 1) / n) (length ss)) ss else ss

-- `appendFeedback` with the statistics that it reports: the messages that it appends, whether it
-- marks the packet as having a selective ACK, and the window.
unfoldable pub append_feedback :
    Bool → ℕ → ℕ → ControlMsg → RecvWindow → List ControlMsg × Bool × RecvWindow
unfolding sacks prune
append_feedback selective mtu size stats w =
    if selective
    then (stats ∷ prune mtu size (sacks w), true, record w { need_selective_ack = false })
    else (stats ∷ [], false, w)

-- `handleNAK`: the last NAK of a packet that the window holds.
abbrev pub nak_of : SendWindow → Option Seq → ControlMsg → Option Seq
nak_of w r (nak s) = if outside w s || not (is_some (Send.entry w s).pkt) then r else some s
nak_of w r (hello g) = r
nak_of w r (timestamp t) = r
nak_of w r (timestamp_echo n s t) = r
nak_of w r (receiver_stats e t) = r
nak_of w r (selective_ack b e) = r
nak_of w r (set_unack u) = r

pub nak_loop : List ControlMsg → SendWindow → Option Seq → Option Seq
nak_loop [] w r = r
nak_loop (m ∷ ms) w r = nak_loop ms w (nak_of w r m)

unfoldable pub handle_nak : List ControlMsg → SendWindow → Option Seq
unfolding nak_loop
handle_nak ms w = nak_loop ms w none

-- `handleReceiverStats`
abbrev pub stats_of : SendWindow → ControlMsg → SendWindow
stats_of w (receiver_stats e r) = record w { long_evm = some e; long_rssi = some r }
stats_of w (nak s) = w
stats_of w (hello g) = w
stats_of w (timestamp t) = w
stats_of w (timestamp_echo n s t) = w
stats_of w (selective_ack b e) = w
stats_of w (set_unack u) = w

pub handle_receiver_stats : List ControlMsg → SendWindow → SendWindow
handle_receiver_stats [] w = w
handle_receiver_stats (m ∷ ms) w = handle_receiver_stats ms (stats_of w m)
