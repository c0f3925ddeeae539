-- ===== src/SimpleQueue.antt =====
-- src/net/SimpleQueue.hh and `canPop` of src/net/Queue.hh: the queue of packets to send. Each method
-- runs under the queue's lock, so the calls of all threads are taken one after the other. `pop` is
-- the method past its wait, and `ready` is the condition that it waits for.
pub mod Scan
pub mod Pop
mod Tests
use dragonradio.Prelude.{
  ℕ, Bool, true, false, not, ◌&&◌, ◌||◌, Option, none, some, List, [], ◌∷◌, ◌++◌, if◌then◌else◌,
  ◌==◌,
}
use dragonradio.Packet.{NetPacket, NodeId, node_broadcast, should_drop}

-- A packet with the `flow_uid` that `push` reads of it.
pub record Item : Type 0 where
  pub pkt : NetPacket
  pub flow_uid : Option ℕ

-- `INTERNAL_PORT`
abbrev pub internal_port : ℕ
internal_port = 4096

pub data QueueType : Type 0 where
  fifo : QueueType
  lifo : QueueType

-- `send_window_status_`: no entry is an open window.
pub record SimpleQueue : Type 0 where
  pub done : Bool
  pub kicked : Bool
  pub queue_type : QueueType
  pub hiq : List Item
  pub q : List Item
  pub send_window_status : NodeId → Option Bool

unfoldable pub new_queue : QueueType → SimpleQueue
new_queue t = record {
  done = false;
  kicked = false;
  queue_type = t;
  hiq = [];
  q = [];
  send_window_status = λ _. none;
}

unfoldable pub get_queue_type : SimpleQueue → QueueType
get_queue_type s = s.queue_type

unfoldable pub set_queue_type : QueueType → SimpleQueue → SimpleQueue
set_queue_type t s = record s { queue_type = t }

-- The high-priority queue and the kick stay.
unfoldable pub reset : SimpleQueue → SimpleQueue
reset s = record s { done = false; q = [] }

abbrev pub is_internal : Option ℕ → Bool
is_internal none = false
is_internal (some flow_uid) = flow_uid == internal_port

unfoldable pub push : Item → SimpleQueue → SimpleQueue
push item s =
    if is_internal item.flow_uid
    then record s { hiq = s.hiq ++ item ∷ [] }
    else record s { q = s.q ++ item ∷ [] }

unfoldable pub push_hi : Item → SimpleQueue → SimpleQueue
push_hi item s = record s { hiq = item ∷ s.hiq }

unfoldable pub repush : Item → SimpleQueue → SimpleQueue
repush item s =
    if item.pkt.syn then record s { hiq = item ∷ s.hiq } else record s { hiq = s.hiq ++ item ∷ [] }

-- The status of a node's window, `true` when there is none.
abbrev pub is_open : Option Bool → Bool
is_open none = true
is_open (some b) = b

-- `canPop`
unfoldable pub can_pop : SimpleQueue → Item → Bool
can_pop s i =
    if i.pkt.nexthop == node_broadcast || i.pkt.has_seq
    then true
    else is_open (s.send_window_status i.pkt.nexthop)

-- `Queue::setSendWindowStatus`
unfoldable pub set_send_window_status : NodeId → Bool → SimpleQueue → SimpleQueue
set_send_window_status id is_open s = record s {
  send_window_status = λ node. if node == id then some is_open else s.send_window_status node;
}

-- The loop of `pop` over one list: what it returns and what it leaves.
abbrev pub scan : SimpleQueue → ℕ → List Item → Option Item × List Item
scan s now [] = (none, [])
scan s now (i ∷ is) =
    let (found, rest) = scan s now is in
    if should_drop i.pkt now
    then (found, rest)
    else if can_pop s i
    then (some i, is)
    else (found, i ∷ rest)

-- The loop with reverse iterators, on the list from its end.
abbrev pub reverse : List Item → List Item
reverse [] = []
reverse (i ∷ is) = reverse is ++ i ∷ []

unfoldable pub scan_lifo : SimpleQueue → ℕ → List Item → Option Item × List Item
scan_lifo s now is = let (found, rest) = scan s now (reverse is) in (found, reverse rest)

unfoldable pub scan_q : SimpleQueue → ℕ → QueueType → Option Item × List Item
unfolding scan_lifo
scan_q s now fifo = scan s now s.q
scan_q s now lifo = scan_lifo s now s.q

-- "Then look in the network queue", after the high-priority queue has become `hiq`.
abbrev pub look_further : SimpleQueue → ℕ → Option Item × List Item → Option Item × SimpleQueue
look_further s now (some i, hiq) = (some i, record s { hiq = hiq })
look_further s now (none, hiq) =
    let (found, q) = scan_q s now s.queue_type in (found, record s { hiq = hiq; q = q })

unfoldable pub pop : ℕ → SimpleQueue → Option Item × SimpleQueue
pop now s =
    if s.kicked
    then (none, record s { kicked = false })
    else if s.done
    then (none, s)
    else look_further s now (scan s now s.hiq)

abbrev pub is_nil : List Item → Bool
is_nil [] = true
is_nil (i ∷ is) = false

unfoldable pub ready : SimpleQueue → Bool
ready s = s.done || s.kicked || not (is_nil s.hiq) || not (is_nil s.q)

unfoldable pub kick : SimpleQueue → SimpleQueue
kick s = record s { kicked = true }

unfoldable pub stop : SimpleQueue → SimpleQueue
stop s = record s { done = true }
