-- ===== src/Arq/Controller.antt =====
-- The controller of src/mac/SmartController.cc as a whole: `received`, `retransmitOnTimeout` and
-- `resetMCSTransitionProbabilities`. Other threads do not
-- run inside a method. The numbers that depend on the surroundings are arguments: the time, the number
-- that `dist_(gen_)` draws, and what the estimators of a receive window answer.
pub mod Frame
pub mod Syn
pub mod Connect
mod Tests
use dragonradio.Arq.Windows.{
  Output, deliver, push_hi, act, mcs_of, Settings, Controller, assign, set_send, set_recv,
  keeps_window, get_receive_window,
}
use dragonradio.Prelude.{
  ℕ, ◌+◌, ◌-◌, Bool, true, false, not, ◌&&◌, ◌||◌, Option, none, some, List, [], ◌∷◌, ◌++◌, length,
  map, max, replicate, if◌then◌else◌, ◌==◌, leb, ltb,
}
use dragonradio.Double.{Doubles}
use dragonradio.Seq.{Seq, lt, gt, ge, add, sub}
use dragonradio.Arq.Hello.{Clocks, process_control}
use dragonradio.Packet.{RadioPacket, NetPacket, NodeId, Time, ControlMsg, node_broadcast}
use dragonradio.Arq.Recv.{RecvWindow, advance_recv_window, update_max, recv_data}
use dragonradio.Arq.Send
use dragonradio.Arq.Send.{
  SendWindow, Action, Env, new_send_window, tx_failure, ack_up_to, advance_send_window,
  retransmit_or_drop,
}
use dragonradio.Arq.Feedback.{handle_nak, handle_receiver_stats}
use dragonradio.Arq.Selective.{handle_selective_ack}
use dragonradio.Arq.Amc.{Config, Amc, set_mcs, update_mcs}
use dragonradio.Arq.Timers.{Receiver, Local, new_receiver, ack, nak, start_sack_timer, stopped}

-- A packet with its flags and its timestamp as control messages carry it, and what a call of `received` reads of its surroundings.
pub record Heard : Type 0 where
  pub pkt : RadioPacket
  pub invalid_header : Bool
  pub invalid_payload : Bool
  pub has_data : Bool
  pub has_control : Bool
  pub at : Time
  pub now : ℕ
  pub stats : ControlMsg
  pub env : Env

module _ (ds : Doubles) where
  abbrev pub sent_by : Option NetPacket → List Output
  sent_by none = []
  sent_by (some p) = push_hi p ∷ []

  -- `received` for a packet of this node with data and a bad payload.
  unfoldable pub refused : Settings ds → Heard → Receiver → Receiver × List Output
  unfolding nak
  refused s h r =
      let w = r.window in
      let (w₁, out) =
        if ge h.pkt.seq (add w.ack w.win) then advance_recv_window h.pkt.seq w else (w, []) in
      let (o, r') =
        nak s.here h.stats h.now h.pkt.seq
          (record r { window = update_max h.pkt.seq h.pkt.timestamp w₁ }) in
      (r', map deliver out ++ sent_by o)

  -- "If the NAK is for a retransmitted packet, count it as a transmission failure."
  abbrev pub counts_again : Seq → SendWindow → Option NetPacket → Bool
  counts_again seq w none = false
  counts_again seq w (some p) = leb p.mcsidx w.mcsidx && ltb 0 p.nretrans && ge seq w.per_cutoff

  abbrev pub count_nak : Option Seq → SendWindow → SendWindow
  count_nak none w = w
  count_nak (some seq) w = if counts_again seq w (Send.entry w seq).pkt then tx_failure w else w

  -- `tfeedback`; the slop of 0.001 s is 1000 microseconds.
  abbrev pub feedback_time : Settings ds → ℕ → Option Seq → SendWindow → ℕ
  feedback_time s now none w = now - s.selective_ack_feedback_delay
  feedback_time s now (some seq) w =
      if s.demod_always_ordered
      then max (now - s.selective_ack_feedback_delay) ((Send.entry w seq).sent_at + 1000)
      else now - s.selective_ack_feedback_delay

  -- "Handle ACK/NAK", on the send window of the packet's sender.
  unfoldable pub handle_ack_nak : Settings ds → ds.Carrier → Heard → Amc ds → Amc ds × List Output
  unfolding handle_nak ack_up_to handle_selective_ack update_mcs advance_send_window
  handle_ack_nak s roll h r =
      let n = h.pkt.curhop in
      let nacked = handle_nak h.pkt.control r.window in
      let tfeedback = feedback_time s h.now nacked r.window in
      let w₁ = handle_receiver_stats h.pkt.control r.window in
      let (w₂, acts₂) = ack_up_to h.pkt.ack w₁ in
      let (w₃, acts₃) = handle_selective_ack h.env tfeedback h.pkt.control w₂ in
      let (r₄, told) = update_mcs ds s.amc roll (record r { window = count_nak nacked w₃ }) in
      let (w₅, acts₅) = advance_send_window r₄.window in
      if h.pkt.ack_flag
      then (
        record r₄ { window = w₅ },
        map (act n) (acts₂ ++ acts₃) ++ (map (mcs_of n) told ++ map (act n) acts₅),
      )
      else (r, [])

  -- "Fill our receive window", once an ACK has been sent or the timer started.
  unfoldable pub filled : Settings ds → Heard → Option NetPacket × Receiver → Receiver × List Output
  filled s h (o, r) =
      let (w, out) = recv_data s.enforce_ordering h.pkt r.window in
      (record r { window = w }, sent_by o ++ map deliver out)

  unfoldable pub fill : Settings ds → Heard → Receiver → Receiver × List Output
  fill s h r =
      filled s h
        (if h.pkt.syn then ack s.here h.stats r else (none, start_sack_timer s.here h.now r))

  -- The parts of `received`, from the last to the first.
  unfoldable pub take_data : Settings ds → Heard → Controller ds → Controller ds × List Output
  unfolding get_receive_window fill
  take_data s h c =
      let (r, c₁) = get_receive_window ds s h.pkt.curhop h.pkt.seq h.pkt.syn c in
      let (r', out) = fill s h r in
      if h.pkt.data_len == 0 then (c, []) else (set_recv ds h.pkt.curhop r' c₁, out)

  unfoldable pub take_feedback :
      Settings ds → ds.Carrier → Heard → Controller ds → Controller ds × List Output
  unfolding handle_ack_nak
  take_feedback s roll h c = elim (c.send h.pkt.curhop) [
    | none ↦ (c, [])
    | some r ↦ let (r', out) = handle_ack_nak s roll h r in (set_send ds h.pkt.curhop r' c, out)
  ]

  unfoldable pub take_broadcast : Heard → List Output
  take_broadcast h =
      if h.pkt.data_len == 0 then [] else deliver (record (h.pkt) { control = [] }) ∷ []

  -- "Process control info"
  unfoldable pub heed : Settings ds → Heard → Controller ds → Controller ds
  unfolding process_control
  heed s h c =
      if h.has_control
      then record c {
        clocks =
            process_control s.here.my_id s.time_master h.pkt.curhop h.at h.pkt.control c.clocks;
      }
      else c

  unfoldable pub take_valid :
      Settings ds → ds.Carrier → Heard → Controller ds → Controller ds × List Output
  unfolding heed take_broadcast take_feedback take_data
  take_valid s roll h c =
      let c₀ = heed s h c in
      let (c₁, out₁) = take_feedback s roll h c₀ in
      let (c₂, out₂) = take_data s h c₁ in
      if h.pkt.nexthop == node_broadcast then (c₀, take_broadcast h) else (c₂, out₁ ++ out₂)

  unfoldable pub take_refused : Settings ds → Heard → Controller ds → Controller ds × List Output
  unfolding get_receive_window refused
  take_refused s h c =
      let (r, c₁) = get_receive_window ds s h.pkt.curhop h.pkt.seq h.pkt.syn c in
      let (r', out) = refused s h r in
      if not h.has_data
      then (c, [])
      else if h.pkt.nexthop == node_broadcast
      then (c₁, [])
      else (set_recv ds h.pkt.curhop r' c₁, out)

  -- The window that a packet with data has before its control messages are read.
  unfoldable pub opened : Settings ds → Heard → Controller ds → Controller ds
  unfolding get_receive_window
  opened s h c =
      if h.has_data then (get_receive_window ds s h.pkt.curhop h.pkt.seq h.pkt.syn c).1 else c

  -- "Skip packets with invalid header" and "Skip packets that aren't for us"
  abbrev pub skips : Settings ds → Heard → Bool
  skips s h =
      h.invalid_header
      || (not (h.pkt.nexthop == node_broadcast) && not (h.pkt.nexthop == s.here.my_id))

  unfoldable pub received :
      Settings ds → ds.Carrier → Heard → Controller ds → Controller ds × List Output
  unfolding take_refused take_valid opened
  received s roll h c =
      if skips s h
      then (c, [])
      else if h.invalid_payload
      then take_refused s h c
      else take_valid s roll h (opened s h c)

  -- `retransmitOnTimeout`, for the entry of a number in the send window of a node.
  unfoldable pub retransmit_on_timeout :
      Settings ds → ds.Carrier → Env → NodeId → Seq → Amc ds → Amc ds × List Output
  unfolding update_mcs retransmit_or_drop
  retransmit_on_timeout s roll env n seq r = elim (Send.entry r.window seq).pkt [
    | none ↦ (r, [])
    | some p ↦
        let w = r.window in
        let counts = env.dest_can_transmit && leb p.mcsidx w.mcsidx && ge p.seq w.per_cutoff in
        let (r₁, told) =
          if counts
          then update_mcs ds s.amc roll (record r { window = tx_failure w })
          else (r, []) in
        let (w₂, acts) = retransmit_or_drop env seq p r₁.window in
        (record r₁ { window = w₂ }, map (mcs_of n) told ++ map (act n) acts)
  ]

  -- `resetMCSTransitionProbabilities`, for one send window.
  unfoldable pub reset_mcs_transition_probabilities : Settings ds → Amc ds → Amc ds × List ℕ
  unfolding set_mcs
  reset_mcs_transition_probabilities s r =
      let (r', told) =
        set_mcs ds s.amc s.amc.mcsidx_init
          (record r { mcsidx_prob = replicate (length r.mcsidx_prob) (ds.of_nat 1) }) in
      (record r' { window = record r'.window { per_cutoff = r'.window.seq } }, told)
