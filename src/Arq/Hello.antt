-- ===== src/Arq/Hello.antt =====
-- Nodes that announce themselves and their clocks, of src/mac/SmartController.cc: `broadcastHello`,
-- `handleCtrlHello` and `handleCtrlTimestampEchos`. An instant of another clock is carried as the
-- message has it.
pub mod Heeded
mod Tests
use dragonradio.Prelude.{
  ℕ, Bool, true, false, not, ◌&&◌, ◌||◌, Option, none, some, List, [], ◌∷◌, ◌++◌, if◌then◌else◌,
  ◌==◌,
}
use dragonradio.Packet.{
  NetPacket, NodeId, Time, ControlMsg, hello, timestamp, timestamp_echo, receiver_stats, nak,
  selective_ack, set_unack, node_broadcast,
}
use dragonradio.Arq.Timers.{Local, control_packet}

-- When a node sent a packet, and when this node received it.
pub record Stamp : Type 0 where
  pub t_sent : Time
  pub t_recv : Time

-- What a node is known by.
pub record Known : Type 0 where
  pub is_gateway : Bool
  pub timestamps : List Stamp

pub record Clocks : Type 0 where
  pub nodes : NodeId → Known
  pub echoed_timestamps : List Stamp

abbrev pub known_as : NodeId → Known → Clocks → Clocks
known_as n k c = record c { nodes = λ m. if m == n then k else c.nodes m }

-- `handleCtrlHello`, for one message; `at` is the packet's own timestamp.
abbrev pub hello_of : Time → Known → ControlMsg → Known
hello_of at k (hello g) = record k { is_gateway = g }
hello_of at k (timestamp t) = record k {
  timestamps = k.timestamps ++ record { t_sent = t; t_recv = at } ∷ [];
}
hello_of at k (timestamp_echo n s t) = k
hello_of at k (receiver_stats e r) = k
hello_of at k (nak s) = k
hello_of at k (selective_ack b e) = k
hello_of at k (set_unack u) = k

pub handle_ctrl_hello : Time → List ControlMsg → Known → Known
handle_ctrl_hello at [] k = k
handle_ctrl_hello at (m ∷ ms) k = handle_ctrl_hello at ms (hello_of at k m)

-- `handleCtrlTimestampEchos`, for one message of the time master.
abbrev pub echo_of : NodeId → List Stamp → ControlMsg → List Stamp
echo_of me ss (timestamp_echo n s t) =
    if n == me then ss ++ record { t_sent = s; t_recv = t } ∷ [] else ss
echo_of me ss (hello g) = ss
echo_of me ss (timestamp t) = ss
echo_of me ss (receiver_stats e r) = ss
echo_of me ss (nak s) = ss
echo_of me ss (selective_ack b e) = ss
echo_of me ss (set_unack u) = ss

pub echo_loop : NodeId → List ControlMsg → List Stamp → List Stamp
echo_loop me [] ss = ss
echo_loop me (m ∷ ms) ss = echo_loop me ms (echo_of me ss m)

abbrev pub is_master : Option NodeId → NodeId → Bool
is_master none n = false
is_master (some m) n = n == m

unfoldable pub handle_ctrl_timestamp_echos :
    NodeId → Option NodeId → NodeId → List ControlMsg → List Stamp → List Stamp
unfolding echo_loop
handle_ctrl_timestamp_echos me time_master node ms ss =
    if not (node == me) && is_master time_master node then echo_loop me ms ss else ss

-- "Process control info" of `received`, for a packet of the node `from`.
unfoldable pub process_control :
    NodeId → Option NodeId → NodeId → Time → List ControlMsg → Clocks → Clocks
unfolding handle_ctrl_hello handle_ctrl_timestamp_echos
process_control me time_master from at ms c =
    record (known_as from (handle_ctrl_hello at ms (c.nodes from)) c) {
      echoed_timestamps = handle_ctrl_timestamp_echos me time_master from ms c.echoed_timestamps;
    }

-- `node.timestamps.rbegin()`
abbrev pub latest : List Stamp → Option Stamp
latest [] = none
latest (s ∷ []) = some s
latest (s ∷ t ∷ ss) = latest (t ∷ ss)

-- The echo of one node's last timestamp.
abbrev pub echo : NodeId → Option Stamp → List ControlMsg
echo n none = []
echo n (some s) = timestamp_echo n s.t_sent s.t_recv ∷ []

-- `net_->foreach`, over the nodes in their order.
pub echoes : NodeId → (NodeId → Known) → List NodeId → List ControlMsg
echoes me nodes [] = []
echoes me nodes (n ∷ ns) =
    if n == me
    then echoes me nodes ns
    else echo n (latest (nodes n).timestamps) ++ echoes me nodes ns

-- `broadcastHello`: the packet for the head of the queue. The MAC adds its own timestamp on sending.
unfoldable pub broadcast_hello : Local → Option NodeId → List NodeId → Clocks → Option NetPacket
unfolding echoes
broadcast_hello l time_master ns c =
    let out = hello (c.nodes l.my_id).is_gateway ∷ [] in
    let all = if is_master time_master l.my_id then out ++ echoes l.my_id c.nodes ns else out in
    if not l.has_queue || not l.can_transmit
    then none
    else some (record (control_packet l node_broadcast all) { mcsidx = l.mcsidx_broadcast })
