-- ===== src/Arq/Feedback/Tests.antt =====
-- A receive window of eight that wraps and has holes, and a NAK of a packet that is out.
use dragonradio.Prelude.{◌≡◌, refl, true, false, none, some, [], ◌∷◌}
use dragonradio.Seq.{Seq, lt, le}
use dragonradio.Packet.{NetPacket, selective_ack, receiver_stats}
use dragonradio.Arq.Recv
use dragonradio.Arq.Recv.{RecvWindow, cleared, already_delivered}
use dragonradio.Arq.Send.{SendWindow, vacant}
use dragonradio.Arq.Feedback.{sacks, sack_loop, append_feedback, prune}
use dragonradio.Arq.Feedback.Reported.{Reported}

abbrev here : Recv.Entry
here = already_delivered cleared

-- 65534 is missing; 65535, 0 and 2 have arrived.
abbrev holes : RecvWindow
holes = record {
  ack = 65534;
  max = 2;
  max_timestamp = 0;
  win = 8;
  need_selective_ack = true;
  timer_for_ack = false;
  entries = here ∷ cleared ∷ here ∷ cleared ∷ cleared ∷ cleared ∷ cleared ∷ here ∷ [];
}

sacks-holes : sacks holes ≡ selective_ack 65535 1 ∷ selective_ack 2 3 ∷ []
unfolding sacks sack_loop le lt
sacks-holes = refl

-- Only the later of the two fits.
append_feedback-holes :
    (append_feedback true 30 24 (receiver_stats 1 2) holes).0
    ≡ receiver_stats 1 2 ∷ selective_ack 2 3 ∷ []
unfolding append_feedback sacks sack_loop prune le lt
append_feedback-holes = refl

abbrev data_packet : Seq → NetPacket
data_packet seq = record {
  hdr = record {
    curhop = 1;
    nexthop = 2;
    seq = seq;
    syn = false;
    ack_flag = false;
    ack = 0;
    data_len = 10;
  };
  retransmission = false;
  has_seq = true;
  deadline = none;
  mcsidx = 0;
  nretrans = 0;
  control = [];
  body = 0;
}

abbrev window : SendWindow
window = record {
  seq = 2;
  unack = 65535;
  max = 1;
  new_window = false;
  send_set_unack = false;
  win = 4;
  maxwin = 4;
  mcsidx = 0;
  per_cutoff = 0;
  per_end = 65535;
  short_per = [];
  long_per = [];
  long_evm = none;
  long_rssi = none;
  entries =
      vacant
      ∷ record { pkt = some (data_packet 1); sent_at = 100; running = true }
      ∷ vacant
      ∷ vacant
      ∷ [];
}
