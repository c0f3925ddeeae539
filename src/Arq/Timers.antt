-- ===== src/Arq/Timers.antt =====
-- The timer of a receive window and the packets that src/mac/SmartController.cc injects to answer a
-- sender: `ack`, `nak`, `RecvWindow::operator()`, `startSACKTimer`, and `transmitted` for one packet.
pub mod Rate
pub mod Delay
mod Tests
use dragonradio.Prelude.{
  ℕ, ◌+◌, ◌-◌, ◌%◌, Bool, true, false, not, ◌&&◌, ◌||◌, Option, none, some, List, [], ◌∷◌, ◌++◌,
  length, get_or, set, replicate, if◌then◌else◌, ◌==◌, ltb, is_some,
}
use dragonradio.Seq.{Seq}
use dragonradio.Packet.{NetPacket, NodeId, ControlMsg, node_broadcast}
use dragonradio.Packet
use dragonradio.Packet.Control.{ctrlsize}
use dragonradio.Arq.Recv.{RecvWindow, new_window}
use dragonradio.Arq.Send.{SendWindow, entry, put, start_timer}
use dragonradio.Arq.Feedback.{append_feedback}

-- `RecvWindow` with the state of its explicit NAKs and its timer: when it fires, if it runs.
pub record Receiver : Type 0 where
  pub node : NodeId
  pub window : RecvWindow
  pub explicit_nak_win : List ℕ
  pub explicit_nak_idx : ℕ
  pub timer : Option ℕ

-- The controller's settings and what it reads of its surroundings. Times are in microseconds;
-- `empty_size` is the size of a packet that holds headers only.
pub record Local : Type 0 where
  pub my_id : NodeId
  pub can_transmit : Bool
  pub has_queue : Bool
  pub ack_delay : ℕ
  pub sack_delay : ℕ
  pub explicit_nak_win_size : ℕ
  pub explicit_nak_win_duration : ℕ
  pub selective_ack : Bool
  pub mtu : ℕ
  pub empty_size : ℕ
  pub mcsidx_broadcast : ℕ

-- The constructor `RecvWindow(n, controller, seq, win, nak_win)`.
unfoldable pub new_receiver : NodeId → Seq → ℕ → ℕ → Receiver
unfolding new_window
new_receiver node seq win nak_win = record {
  node = node;
  window = new_window seq win;
  explicit_nak_win = replicate nak_win 0;
  explicit_nak_idx = 0;
  timer = none;
}

-- A packet without data, from this node to `node`, with control messages.
abbrev pub control_packet : Local → NodeId → List ControlMsg → NetPacket
control_packet l node ms = record {
  hdr = record {
    curhop = l.my_id;
    nexthop = node;
    seq = 0;
    syn = false;
    ack_flag = false;
    ack = 0;
    data_len = 0;
  };
  retransmission = false;
  has_seq = false;
  deadline = none;
  mcsidx = 0;
  nretrans = 0;
  control = ms;
  body = 0;
}

-- What `ack` and `nak` share: a packet for the head of the queue, with the messages `ms` and feedback.
unfoldable pub feedback_packet :
    Local → ControlMsg → List ControlMsg → ℕ → Receiver → NetPacket × Receiver
unfolding append_feedback
feedback_packet l stats ms size r =
    let (fb, flag, w) =
      append_feedback l.selective_ack l.mtu (l.empty_size + size) stats r.window in
    (control_packet l r.node (ms ++ fb), record r { window = w })

-- `ack`; the packet goes to `netq_->push_hi`.
unfoldable pub ack : Local → ControlMsg → Receiver → Option NetPacket × Receiver
unfolding feedback_packet
ack l stats r =
    let (p, r') = feedback_packet l stats [] (ctrlsize 3) r in
    if not l.has_queue || not l.can_transmit then (none, r) else (some p, r')

-- `nak`; an index behind the end of the ring reads and writes nothing here.
unfoldable pub nak : Local → ControlMsg → ℕ → Seq → Receiver → Option NetPacket × Receiver
unfolding feedback_packet
nak l stats now seq r =
    let i = r.explicit_nak_idx in
    let (p, r') =
      feedback_packet l stats (Packet.nak seq ∷ []) (ctrlsize 4 + ctrlsize 3) (record r {
        explicit_nak_win = set r.explicit_nak_win i now;
        explicit_nak_idx = (i + 1) % l.explicit_nak_win_size;
      }) in
    if not l.has_queue || not l.can_transmit
    then (none, r)
    else if length r.explicit_nak_win == 0
    then (none, r)
    else if ltb now (get_or r.explicit_nak_win i 0 + l.explicit_nak_win_duration)
    then (none, r)
    else (some p, r')

-- `startSACKTimer`
unfoldable pub start_sack_timer : Local → ℕ → Receiver → Receiver
start_sack_timer l now r = if is_some r.timer then r else record r {
  window = record r.window { need_selective_ack = false; timer_for_ack = false };
  timer = some (now + l.sack_delay);
}

-- `RecvWindow::operator()`, which the timer queue calls when it has taken the timer off. If the delay
-- of an ACK is the shorter one, the code runs the timer at an instant in the past, the model now.
unfoldable pub on_timer : Local → ControlMsg → ℕ → Receiver → Option NetPacket × Receiver
unfolding ack
on_timer l stats now r = if r.window.timer_for_ack then ack l stats r else (
  none,
  record r {
    window = record r.window { need_selective_ack = true; timer_for_ack = true };
    timer = some (now + (l.ack_delay - l.sack_delay));
  },
)

-- `timer_queue_.cancel(recvw)`, and the timer as it is when it fires.
abbrev pub stopped : Receiver → Receiver
stopped r = record r { timer = none }

-- `transmitted`, for one packet and the windows of its next hop: the retransmission timer of the packet
-- starts, and a packet that carries selective ACKs stops the timer that would send them.
unfoldable pub transmitted_packet : NetPacket → Bool → SendWindow → Receiver → SendWindow × Receiver
transmitted_packet p has_selective_ack w r = (
  if not (p.nexthop == node_broadcast) && not (p.data_len == 0)
      then put w p.seq (start_timer (entry w p.seq))
      else w,
  if has_selective_ack then stopped r else r,
)
