-- ===== src/Arq/Sample.antt =====
-- The settings of a node that the tests share.
use dragonradio.Prelude.{true, false, none, [], ◌∷◌}
use dragonradio.Double.Whole.{whole}
use dragonradio.Arq.Timers.{Local}
use dragonradio.Arq.Amc.{Config}
use dragonradio.Arq.Windows.{Settings}

abbrev pub local : Local
local = record {
  my_id = 1;
  can_transmit = true;
  has_queue = true;
  ack_delay = 100;
  sack_delay = 50;
  explicit_nak_win_size = 0;
  explicit_nak_win_duration = 0;
  selective_ack = true;
  mtu = 1500;
  empty_size = 24;
  mcsidx_broadcast = 0;
}

abbrev pub amc : Config whole
amc = record {
  valid = true ∷ true ∷ [];
  evm_thresholds = none ∷ none ∷ [];
  max_packet_samples = 10 ∷ 10 ∷ [];
  mcsidx_min = 0;
  mcsidx_max = 1;
  mcsidx_init = 0;
  mcsidx_up_per_threshold = 1;
  mcsidx_down_per_threshold = 0;
  mcsidx_alpha = 1;
  mcsidx_prob_floor = 1;
  short_per_window = 2;
  long_per_window = 3;
  min_channel_bandwidth = 10;
}

abbrev pub settings : Settings whole
settings = record {
  amc = amc;
  here = local;
  max_sendwin = 8;
  recvwin = 8;
  enforce_ordering = false;
  demod_always_ordered = false;
  time_master = none;
  selective_ack_feedback_delay = 0;
}
