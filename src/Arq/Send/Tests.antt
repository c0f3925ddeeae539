-- ===== src/Arq/Send/Tests.antt =====
-- A send window of four places that wraps: 65535, 0 and 1 are out, and 0 has been acknowledged.
use dragonradio.Prelude.{◌≡◌, refl, true, false, none, some, [], ◌∷◌, arith, min}
use dragonradio.Seq.{Seq, diff, gt}
use dragonradio.Packet.{NetPacket}
use dragonradio.Arq.Send.{SendWindow, Entry, vacant, handle_ack, ack_up_to, advance_send_window}
use dragonradio.Arq.Send.Ack.{Handled, handle_ack-Handled}
use dragonradio.Arq.Send.Cumulative.{Passed, sent_count, ack_up_to-Passed}
use dragonradio.Arq.Send.Skip.{may_skip, advance_send_window_stop}

abbrev data_packet : Seq → NetPacket
data_packet seq = record {
  hdr = record {
    curhop = 1;
    nexthop = 2;
    seq = seq;
    syn = false;
    ack_flag = false;
    ack = 0;
    data_len = 10;
  };
  retransmission = false;
  has_seq = true;
  deadline = none;
  mcsidx = 0;
  nretrans = 0;
  control = [];
  body = 0;
}

abbrev sent : Seq → Entry
sent seq = record { pkt = some (data_packet seq); sent_at = 100; running = true }

abbrev window : SendWindow
window = record {
  seq = 2;
  unack = 65535;
  max = 1;
  new_window = false;
  send_set_unack = false;
  win = 4;
  maxwin = 4;
  mcsidx = 0;
  per_cutoff = 0;
  per_end = 65535;
  short_per = [];
  long_per = [];
  long_evm = none;
  long_rssi = none;
  entries = vacant ∷ sent 1 ∷ vacant ∷ sent 65535 ∷ [];
}

handle_ack-Handled_example : Handled 1 window (handle_ack 1 window)
handle_ack-Handled_example = handle_ack-Handled 1 window (omega arith)

-- The ACK claims more than was sent.
ack_up_to-Passed_example :
    Passed (min (diff 9 65535) (sent_count 65535 1)) window (ack_up_to 9 window).0
ack_up_to-Passed_example =
    ack_up_to-Passed 9 window (unfold gt in refl) (omega arith) (omega arith) (omega arith)
      (omega arith) (omega arith) (omega arith)

advance_send_window_stop_example :
    (may_skip (advance_send_window window).0 ≡ false) × ((advance_send_window window).0.win ≡ 4)
advance_send_window_stop_example = advance_send_window_stop window (omega arith) (omega arith)
