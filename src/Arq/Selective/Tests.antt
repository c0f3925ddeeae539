-- ===== src/Arq/Selective/Tests.antt =====
-- A send window of four places that wraps, and a report of two runs.
use dragonradio.Prelude.{◌≡◌, refl, true, false, none, some, [], ◌∷◌, arith}
use dragonradio.Seq.{Seq, lt, ge}
use dragonradio.Packet.{NetPacket, hello, selective_ack}
use dragonradio.Arq.Send.{SendWindow, Entry, Env, vacant, entry, handle_ack, retransmit}
use dragonradio.Arq.Selective.{handle_selective_ack, sack_messages, one_sack, gap_loop, run_loop}
use dragonradio.Arq.Selective.Freed.{Selected, handle_selective_ack-Selected}

abbrev data_packet : Seq → NetPacket
data_packet seq = record {
  hdr = record {
    curhop = 1;
    nexthop = 2;
    seq = seq;
    syn = false;
    ack_flag = false;
    ack = 0;
    data_len = 10;
  };
  retransmission = false;
  has_seq = true;
  deadline = none;
  mcsidx = 0;
  nretrans = 0;
  control = [];
  body = 0;
}

abbrev sent : Seq → Entry
sent seq = record { pkt = some (data_packet seq); sent_at = 100; running = true }

abbrev window : SendWindow
window = record {
  seq = 2;
  unack = 65535;
  max = 1;
  new_window = false;
  send_set_unack = false;
  win = 4;
  maxwin = 4;
  mcsidx = 0;
  per_cutoff = 65535;
  per_end = 65535;
  short_per = [];
  long_per = [];
  long_evm = none;
  long_rssi = none;
  entries = vacant ∷ sent 1 ∷ vacant ∷ sent 65535 ∷ [];
}

abbrev env : Env
env = record {
  dest_can_transmit = true;
  me_can_transmit = true;
  now = 300;
  max_retransmissions = none;
}

-- 65535 is missing, and goes out again; 0 and 1 have arrived.
handle_selective_ack-freed :
    (entry (handle_selective_ack env 200 (hello true ∷ selective_ack 0 2 ∷ []) window).0 1).pkt
    ≡ none
unfolding handle_selective_ack sack_messages one_sack gap_loop run_loop handle_ack retransmit lt ge
handle_selective_ack-freed = refl

handle_selective_ack-per :
    (handle_selective_ack env 200 (hello true ∷ selective_ack 0 2 ∷ []) window).0.long_per
    ≡ false ∷ false ∷ true ∷ []
unfolding handle_selective_ack sack_messages one_sack gap_loop run_loop handle_ack retransmit lt ge
handle_selective_ack-per = refl

handle_selective_ack-Selected_example :
    Selected
      (hello true ∷ selective_ack 0 2 ∷ [])
      window
      (handle_selective_ack env 200 (hello true ∷ selective_ack 0 2 ∷ []) window).0
handle_selective_ack-Selected_example =
    handle_selective_ack-Selected env 200 (hello true ∷ selective_ack 0 2 ∷ []) window (omega arith)
