-- ===== src/NetFilter/Tests.antt =====
-- A packet of node 1 for node 2, its headers and nothing more.
use dragonradio.Prelude.{ℕ, refl, true, false, List, [], ◌∷◌, arith, ◌==◌}
use dragonradio.Compress.{Packet}
use dragonradio.Compress.Pack.{PacketCompressor}
use dragonradio.NetFilter.{NetFilter}
use dragonradio.NetFilter.Hops.{IsLocal, filtered, local_passes}
use dragonradio.NetFilter.Admit.{Admitted, with_broadcasts, process-Admitted}
use dragonradio.NetFilter.Passed.{Carried, process-Carried}
use dragonradio.Compress.Bytes.{all_bytes-IsBytes}
use dragonradio.Compress.RoundTrip.{IsSound}
use dragonradio.Compress.RoundTrip.Addresses.{IsMasked}
use dragonradio.Compress.Checksum.{add_word}

abbrev net_filter : NetFilter
net_filter = record {
  my_node_id = 1;
  contains = λ n. n == 2;
  int_net = 0x0a0a0a00;
  int_netmask = 0xffffff00;
  int_broadcast = 0x0a0a0aff;
  ext_net = 0xc0a80000;
  ext_netmask = 0xffff0000;
  ext_broadcast = 0xc0a8ffff;
}

abbrev compressor : PacketCompressor
compressor = record {
  enabled = true;
  int_net = 0x0a0a0a00;
  int_netmask = 0xffffff00;
  ext_net = 0xc0a80000;
  ext_netmask = 0xffff0000;
}

abbrev ip_bytes : List ℕ
ip_bytes =
    69 ∷ 0 ∷ 0 ∷ 20 ∷ 1 ∷ 2 ∷ 64 ∷ 0 ∷ 64 ∷ 6 ∷ 17 ∷ 204 ∷ 10 ∷ 10 ∷ 10 ∷ 1 ∷ 10 ∷ 10 ∷ 10 ∷ 2 ∷ []

abbrev packet : Packet
packet = record {
  curhop = 0;
  nexthop = 0;
  compressed = false;
  src = 0;
  dest = 0;
  data_len = 34;
  payload_size = 0;
  bytes = 198 ∷ 255 ∷ 255 ∷ 255 ∷ 255 ∷ 2 ∷ 198 ∷ 255 ∷ 255 ∷ 255 ∷ 255 ∷ 1 ∷ 8 ∷ 0 ∷ ip_bytes;
}

packet-IsLocal : IsLocal net_filter packet
packet-IsLocal = record { transmits = refl; from = refl; to = refl; source = refl; target = refl }

compressor-IsMasked : IsMasked compressor
compressor-IsMasked = record { internal = refl; external = refl }

packet-IsSound : IsSound packet
packet-IsSound = record {
  bytes_small = all_bytes-IsBytes packet.bytes refl;
  len_small = omega arith;
  len_fits = omega arith;
  len_headers = omega arith;
}

process-Carried_example : Carried net_filter compressor packet
unfolding add_word
process-Carried_example =
    process-Carried net_filter compressor packet packet-IsLocal refl refl compressor-IsMasked
      packet-IsSound refl refl (λ e. absurd (omega arith))

process-Admitted_example :
    Admitted net_filter (with_broadcasts 0 0 net_filter) packet (filtered packet)
process-Admitted_example =
    process-Admitted net_filter 0 0 packet (filtered packet)
      (local_passes net_filter packet packet-IsLocal)
