-- ===== src/Arq/Windows.antt =====
-- The maps of src/mac/SmartController.cc from nodes to their windows, and the functions that look a
-- window up and make one that is missing.
use dragonradio.Prelude.{
  ℕ, Bool, not, ◌&&◌, ◌||◌, Option, none, some, List, [], length, map, replicate, if◌then◌else◌,
  ◌==◌,
}
use dragonradio.Double.{Doubles}
use dragonradio.Seq.{Seq, lt, ge, add, sub}
use dragonradio.Arq.Hello.{Clocks}
use dragonradio.Packet.{RadioPacket, NetPacket, NodeId}
use dragonradio.Arq.Recv.{RecvWindow}
use dragonradio.Arq.Send.{Action, new_send_window}
use dragonradio.Arq.Amc.{Config, Amc, set_mcs}
use dragonradio.Arq.Timers.{Receiver, Local, new_receiver}

-- What the controller gives to `radio_out` and to `netq_`.
pub data Output : Type 0 where
  deliver : RadioPacket → Output
  push_hi : NetPacket → Output
  act : NodeId → Action → Output
  mcs_of : NodeId → ℕ → Output

-- `recvw = f(recvw)`, and an entry of a map set.
abbrev pub assign : {A : Type 0} → NodeId → Option A → (NodeId → Option A) → NodeId → Option A
assign n v m k = if k == n then v else m k

module _ (ds : Doubles) where
  pub record Settings : Type 0 where
    pub amc : Config ds
    pub here : Local
    pub max_sendwin : ℕ
    pub recvwin : ℕ
    pub enforce_ordering : Bool
    pub demod_always_ordered : Bool
    pub time_master : Option NodeId
    pub selective_ack_feedback_delay : ℕ

  pub record Controller : Type 0 where
    pub send : NodeId → Option (Amc ds)
    pub recv : NodeId → Option Receiver
    pub clocks : Clocks

  -- The entry that `send_.emplace` makes, with `setMCS(sendw, mcsidx_init_)`.
  unfoldable pub new_send : Settings → Amc ds × List ℕ
  unfolding set_mcs
  new_send s = set_mcs ds s.amc s.amc.mcsidx_init (record {
    window = new_send_window s.max_sendwin;
    short_size = 1;
    long_size = 1;
    mcsidx_prob = replicate (length s.amc.valid) (ds.of_nat 1);
    prev_short_per = ds.of_nat 1;
    prev_long_per = ds.of_nat 1;
    node_mcsidx = 0;
  })

  abbrev pub set_send : NodeId → Amc ds → Controller → Controller
  set_send n r c = record c { send = assign n (some r) c.send }

  abbrev pub set_recv : NodeId → Receiver → Controller → Controller
  set_recv n r c = record c { recv = assign n (some r) c.recv }

  -- `getSendWindow`
  unfoldable pub get_send_window :
      Settings → NodeId → Controller → Amc ds × Controller × List Output
  unfolding new_send
  get_send_window s n c = elim (c.send n) [
    | some r ↦ (r, c, [])
    | none ↦ let (r, told) = new_send s in (r, set_send n r c, map (mcs_of n) told)
  ]

  -- "If we have a receive window for this source use it."
  abbrev pub keeps_window : Seq → Bool → RecvWindow → Bool
  keeps_window seq syn w = not syn || (ge seq (sub w.max w.win) && lt seq (add w.ack w.win))

  -- `getReceiveWindow`; a window that is given up has its timer cancelled and is gone.
  unfoldable pub get_receive_window :
      Settings → NodeId → Seq → Bool → Controller → Receiver × Controller
  get_receive_window s n seq syn c =
      let r = new_receiver n seq s.recvwin s.here.explicit_nak_win_size in
      elim (c.recv n) [
        | none ↦ (r, set_recv n r c)
        | some old ↦ if keeps_window seq syn old.window then (old, c) else (r, set_recv n r c)
      ]
