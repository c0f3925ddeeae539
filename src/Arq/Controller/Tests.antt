-- ===== src/Arq/Controller/Tests.antt =====
-- A controller without windows, and a SYN of node 2.
use dragonradio.Prelude.{inl, refl, true, false, none, [], arith}
use dragonradio.Double.Whole.{whole}
use dragonradio.Packet.{RadioPacket, receiver_stats}
use dragonradio.Arq.Sample.{settings}
use dragonradio.Arq.Windows.{Controller}
use dragonradio.Arq.Controller.{Heard, received}
use dragonradio.Arq.Controller.Frame.{Spared, received-Spared}
use dragonradio.Arq.Controller.Connect.{IsNewcomer, Connected, received-Connected}

abbrev idle : Controller whole
idle = record {
  send = λ _. none;
  recv = λ _. none;
  clocks = record {
    nodes = λ _. record { is_gateway = false; timestamps = [] };
    echoed_timestamps = [];
  };
}

abbrev syn_packet : RadioPacket
syn_packet = record {
  hdr = record {
    curhop = 2;
    nexthop = 1;
    seq = 65535;
    syn = true;
    ack_flag = false;
    ack = 0;
    data_len = 10;
  };
  is_tcp = false;
  timestamp = 500;
  control = [];
  body = 9;
}

abbrev heard : Heard
heard = record {
  pkt = syn_packet;
  invalid_header = false;
  invalid_payload = false;
  has_data = true;
  has_control = false;
  at = record { secs = 0; frac_secs = 0 };
  now = 510;
  stats = receiver_stats 1 2;
  env = record {
    dest_can_transmit = true;
    me_can_transmit = true;
    now = 510;
    max_retransmissions = none;
  };
}

newcomer : IsNewcomer whole settings 0 heard (omega arith) idle
unfolding IsNewcomer
newcomer = inl refl

received-Connected_example :
    Connected whole settings 0 heard (omega arith) (received whole settings 0 heard idle)
received-Connected_example =
    received-Connected whole settings 0 heard (omega arith) idle newcomer refl refl (omega arith)
      refl refl refl (omega arith) refl refl refl refl (omega arith) (omega arith)

received-Spared_example : Spared whole 3 idle (received whole settings 0 heard idle).0
received-Spared_example = received-Spared whole settings 0 heard 3 idle (omega arith)
