-- ===== src/Arq/Transmit/Tests.antt =====
-- Numbering a packet on a full window that wraps: 65535, 0, 1 and 2 are out.
use dragonradio.Prelude.{◌≡◌, refl, true, false, none, some, List, [], ◌∷◌, arith}
use dragonradio.Seq.{Seq, lt, le}
use dragonradio.Packet.{NetPacket}
use dragonradio.Arq.Send.{SendWindow, Entry, Action, advance_send_window, new_send_window}
use dragonradio.Arq.Transmit.{assign_seq, TxConfig, keep_sent}
use dragonradio.Arq.Transmit.Numbering.{Within, IsOpen, CanDrop, assign_seq-Within}
use dragonradio.Arq.Transmit.FirstPacket.{first_packet_lost}

abbrev data_packet : Seq → NetPacket
data_packet seq = record {
  hdr = record {
    curhop = 1;
    nexthop = 2;
    seq = seq;
    syn = false;
    ack_flag = false;
    ack = 0;
    data_len = 10;
  };
  retransmission = false;
  has_seq = false;
  deadline = none;
  mcsidx = 0;
  nretrans = 0;
  control = [];
  body = 0;
}

abbrev sent : Seq → Entry
sent seq = record { pkt = some (data_packet seq); sent_at = 100; running = true }

abbrev full : SendWindow
full = record {
  seq = 3;
  unack = 65535;
  max = 2;
  new_window = false;
  send_set_unack = false;
  win = 4;
  maxwin = 4;
  mcsidx = 0;
  per_cutoff = 0;
  per_end = 65535;
  short_per = [];
  long_per = [];
  long_evm = none;
  long_rssi = none;
  entries = sent 0 ∷ sent 1 ∷ sent 2 ∷ sent 65535 ∷ [];
}

full-IsOpen : IsOpen full
full-IsOpen = record {
  unack_lt = omega arith;
  max_lt = omega arith;
  win_pos = omega arith;
  win_le = omega arith;
  small = omega arith;
  size = refl;
  within = record { count = 4; fits = omega arith; next = refl };
}

full-CanDrop : CanDrop full
unfolding lt le
full-CanDrop = record {
  oldest = data_packet 65535;
  held = refl;
  not_syn = refl;
  sent = refl;
  before = refl;
}

assign_seq-Within_example :
    (q : NetPacket) × (w' : SendWindow) × (acts : List Action) × (assign_seq true
        (data_packet 0)
        full
      ≡ some (q, w', acts))
    × (q.seq ≡ 3)
    × (q.has_seq ≡ true)
    × (q.syn ≡ false)
    × (w'.seq ≡ 4)
    × (w'.new_window ≡ false)
    × Within w'
assign_seq-Within_example =
    assign_seq-Within true (data_packet 0) full full-IsOpen (λ e. full-CanDrop)

abbrev config : TxConfig
config = record {
  decrease_retrans_mcsidx = false;
  mcsidx_min = 0;
  mcsidx_init = 0;
  dest_can_transmit = true;
}

first_packet_lost_example :
    (q : NetPacket) × (w' : SendWindow) × (acts : List Action) × (assign_seq true
        (data_packet 0)
        (advance_send_window (new_send_window 4)).0
      ≡ some (q, w', acts))
    × (q.syn ≡ true)
    × (w'.new_window ≡ false)
    × (keep_sent config 0 q w' ≡ (none, w'))
first_packet_lost_example =
    first_packet_lost 4 true config 0 (data_packet 0) (omega arith) (omega arith)
