-- ===== src/Arq/Pull/Tests.antt =====
-- A controller that has received up to 41 of node 2, and two packets: one that has a number before the
-- send window, and one for node 2 without data.
use dragonradio.Prelude.{ℕ, ◌≡◌, refl, true, false, none, some, [], ◌∷◌, arith, if◌then◌else◌, ◌==◌}
use dragonradio.Double.Whole.{whole}
use dragonradio.Seq.{Seq, lt}
use dragonradio.Packet.{NetPacket, receiver_stats}
use dragonradio.Arq.Recv.{new_window}
use dragonradio.Arq.Timers.{new_receiver}
use dragonradio.Arq.Amc.{set_mcs, reset_per_estimates, up_to_valid}
use dragonradio.Arq.Send.{new_send_window}
use dragonradio.Arq.Transmit.{admit}
use dragonradio.Arq.Sample.{settings}
use dragonradio.Arq.Windows.{Controller, get_send_window, new_send}
use dragonradio.Arq.Pull.{Sending, pull, get_packet, send_out, address, with_ack}
use dragonradio.Arq.Pull.Acked.{ack_of}
use dragonradio.Arq.Pull.Every.{packet_of, pull-Answers}

abbrev controller : Controller whole
controller = record {
  send = λ _. none;
  recv = λ n. if n == 2 then some (new_receiver 2 42 8 0) else none;
  clocks = record {
    nodes = λ _. record { is_gateway = false; timestamps = [] };
    echoed_timestamps = [];
  };
}

abbrev sending : Sending
sending = record {
  tx = λ _. record {
    decrease_retrans_mcsidx = false;
    mcsidx_min = 0;
    mcsidx_init = 0;
    dest_can_transmit = true;
  };
  move_along = true;
  mcsidx_ack = 3;
  now = 100;
  stats = λ _. receiver_stats 0 0;
}

abbrev packet : Seq → ℕ → NetPacket
packet seq data_len = record {
  hdr = record {
    curhop = 1;
    nexthop = 2;
    seq = seq;
    syn = false;
    ack_flag = false;
    ack = 0;
    data_len = data_len;
  };
  retransmission = false;
  has_seq = true;
  deadline = none;
  mcsidx = 0;
  nretrans = 0;
  control = [];
  body = 0;
}

abbrev answered : NetPacket
answered = record (packet 0 0) {
  hdr = record ((packet 0 0).hdr) { ack_flag = true; ack = 42 };
  mcsidx = 3;
}

pulled :
    packet_of whole (pull whole settings sending (packet 65535 10 ∷ packet 0 0 ∷ []) controller)
    ≡ some answered
unfolding packet_of pull get_packet send_out address with_ack get_send_window new_send set_mcs
    reset_per_estimates up_to_valid new_send_window admit lt new_receiver new_window
pulled = refl

answer : ack_of (controller.recv 2) ≡ some 42
unfolding new_receiver new_window
answer = refl

pull-Answers_example : (answered.ack_flag ≡ true) × (answered.ack ≡ 42)
pull-Answers_example =
    pull-Answers whole settings sending (packet 65535 10 ∷ packet 0 0 ∷ []) controller answered 42
      pulled (omega arith) answer
