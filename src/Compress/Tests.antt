-- ===== src/Compress/Tests.antt =====
-- Packets of node 1 for node 2: a TCP packet and the same one with a fragment offset, a UDP packet
-- from one external network to another, and an MGEN message between the nodes.
use dragonradio.Prelude.{
  ℕ, ◌≡◌, refl, true, false, not, none, some, List, [], ◌∷◌, ◌++◌, arith, is_some, ltb, length,
}
use dragonradio.Compress.{Packet, get_mgen_hdr}
use dragonradio.Compress.Bytes.{all_bytes-IsBytes}
use dragonradio.Compress.Checksum.{add_word}
use dragonradio.Compress.Crc.{crc32, crc32_update, crc32_xinit, crc32_xorot}
use dragonradio.Compress.Crc.Division.{remainder, crc32-remainder}
use dragonradio.Compress.Pack.{PacketCompressor, compress, is_internal, is_external, mgen_matches}
use dragonradio.Compress.Unpack.{then_read}
use dragonradio.Compress.Info.{MgenInfo, init_mgen_info}
use dragonradio.Compress.Info.Agree.{ids, init_mgen_info-compress}
use dragonradio.Compress.Null.{needed, compress_null}
use dragonradio.Compress.Shifted.{Shifted, round_trip-Shifted}
use dragonradio.Compress.RoundTrip.{round_trip, restored, IsSound}
use dragonradio.Compress.RoundTrip.Ethernet.{round_trip-ethernet}
use dragonradio.Compress.RoundTrip.Network.{round_trip-network}
use dragonradio.Compress.RoundTrip.Transport.{IsUdp}
use dragonradio.Compress.RoundTrip.Addresses.{IsMasked, is_external-never}
use dragonradio.Compress.RoundTrip.Packed.{round_trip-udp}
use Prim.Native.Nat.{bit_xor}

abbrev compressor : PacketCompressor
compressor = record {
  enabled = true;
  int_net = 0x0a0a0a00;
  int_netmask = 0xffffff00;
  ext_net = 0xc0a80000;
  ext_netmask = 0xffff0000;
}

abbrev packet : ℕ → ℕ → List ℕ → Packet
packet len payload bs = record {
  curhop = 1;
  nexthop = 2;
  compressed = false;
  src = 1;
  dest = 2;
  data_len = len;
  payload_size = payload;
  bytes = 198 ∷ 255 ∷ 255 ∷ 255 ∷ 255 ∷ 2 ∷ 198 ∷ 255 ∷ 255 ∷ 255 ∷ 255 ∷ 1 ∷ 8 ∷ 0 ∷ 69 ∷ 0 ∷ bs;
}

abbrev nodes : List ℕ
nodes = 10 ∷ 10 ∷ 10 ∷ 1 ∷ 10 ∷ 10 ∷ 10 ∷ 2 ∷ []

abbrev segment : Packet
segment =
    packet 37 0 ((0 ∷ 23 ∷ 1 ∷ 2 ∷ 64 ∷ 0 ∷ 64 ∷ 6 ∷ 17 ∷ 201 ∷ []) ++ nodes ++ (1 ∷ 2 ∷ 3 ∷ []))

abbrev fragment : Packet
fragment =
    packet 37 0 ((0 ∷ 23 ∷ 1 ∷ 2 ∷ 0 ∷ 8 ∷ 64 ∷ 6 ∷ 81 ∷ 193 ∷ []) ++ nodes ++ (1 ∷ 2 ∷ 3 ∷ []))

abbrev datagram : Packet
datagram = packet 45 3 (
    0 ∷ 31 ∷ 1 ∷ 2 ∷ 64 ∷ 0 ∷ 254 ∷ 17 ∷ 47 ∷ 110 ∷ 192 ∷ 168 ∷ 101 ∷ 5 ∷ 192 ∷ 168 ∷ 102 ∷ 7 ∷ 19
    ∷ 136 ∷ 19 ∷ 137 ∷ 0 ∷ 11 ∷ 136 ∷ 103 ∷ 1 ∷ 2 ∷ 3 ∷ [])

abbrev message : Packet
message = packet 97 55 (
    (0 ∷ 83 ∷ 1 ∷ 2 ∷ 64 ∷ 0 ∷ 254 ∷ 17 ∷ 83 ∷ 129 ∷ [])
    ++ nodes
    ++ (19 ∷ 136 ∷ 19 ∷ 137 ∷ 0 ∷ 63 ∷ 152 ∷ 110 ∷ 0 ∷ 55 ∷ 2 ∷ 12 ∷ 0 ∷ 0 ∷ 19 ∷ 137 ∷ 0 ∷ 0 ∷ 0
        ∷ 7 ∷ [])
    ++ (1 ∷ 2 ∷ 3 ∷ 4 ∷ 5 ∷ 6 ∷ 7 ∷ 8 ∷ 19 ∷ 137 ∷ 1 ∷ 4 ∷ 10 ∷ 10 ∷ 10 ∷ 2 ∷ 0 ∷ 0 ∷ 0 ∷ 0 ∷ [])
    ++ (4 ∷ 55 ∷ 104 ∷ 32 ∷ 4 ∷ 55 ∷ 104 ∷ 32 ∷ 255 ∷ 255 ∷ 252 ∷ 25 ∷ 0 ∷ 0 ∷ 0 ∷ 0 ∷ [])
    ++ (1 ∷ 2 ∷ 3 ∷ 208 ∷ 37 ∷ 190 ∷ 202 ∷ []))

compressor-IsMasked : IsMasked compressor
compressor-IsMasked = record { internal = refl; external = refl }

segment-IsSound : IsSound segment
segment-IsSound = record {
  bytes_small = all_bytes-IsBytes segment.bytes refl;
  len_small = omega arith;
  len_fits = omega arith;
  len_headers = omega arith;
}

fragment-IsSound : IsSound fragment
fragment-IsSound = record {
  bytes_small = all_bytes-IsBytes fragment.bytes refl;
  len_small = omega arith;
  len_fits = omega arith;
  len_headers = omega arith;
}

message-IsSound : IsSound message
message-IsSound = record {
  bytes_small = all_bytes-IsBytes message.bytes refl;
  len_small = omega arith;
  len_fits = omega arith;
  len_headers = omega arith;
}

message-IsUdp : IsUdp message
unfolding add_word
message-IsUdp = record {
  sound = message-IsSound;
  ethernet = refl;
  ip = refl;
  proto = refl;
  udp = refl;
  len_udp = omega arith;
  ip_sum = λ e. absurd (omega arith);
  udp_sum = λ e. absurd (omega arith);
}

round_trip-ethernet_example : round_trip compressor fragment ≡ some (restored fragment)
unfolding add_word
round_trip-ethernet_example = round_trip-ethernet compressor fragment fragment-IsSound refl refl

round_trip-network_example : round_trip compressor segment ≡ some (restored segment)
unfolding add_word is_internal
round_trip-network_example =
    round_trip-network compressor segment compressor-IsMasked segment-IsSound refl refl refl refl
      (λ e. absurd (omega arith))

round_trip-udp_example : round_trip compressor message ≡ some (restored message)
round_trip-udp_example = round_trip-udp compressor message compressor-IsMasked message-IsUdp

crc32-remainder_example : crc32 nodes ≡ bit_xor (remainder crc32_xinit nodes) crc32_xorot
crc32-remainder_example = crc32-remainder nodes

-- The frame ends in the IP header.
abbrev cut : Packet
cut = packet 18 0 (0 ∷ 6 ∷ [])

compress_null_example :
    is_some (compress compressor cut) ≡ not (ltb (length cut.bytes) (needed cut))
unfolding get_mgen_hdr
compress_null_example =
    compress_null compressor cut (omega arith) (omega arith) refl (λ h. absurd (omega arith)) refl

-- A segment between two external addresses.
abbrev outside : Packet
outside = packet 37 0 (
    0 ∷ 23 ∷ 1 ∷ 2 ∷ 64 ∷ 0 ∷ 254 ∷ 6 ∷ 47 ∷ 129 ∷ 192 ∷ 168 ∷ 101 ∷ 5 ∷ 192 ∷ 168 ∷ 102 ∷ 7 ∷ 1 ∷ 2
    ∷ 3 ∷ [])

round_trip-Shifted_example :
    (r : Packet) × (round_trip compressor outside ≡ some r) × Shifted outside r
unfolding add_word is_internal
round_trip-Shifted_example =
    round_trip-Shifted compressor outside compressor-IsMasked (all_bytes-IsBytes outside.bytes refl)
      (omega arith) refl refl refl refl

is_external-never_example : is_external compressor datagram ≡ false
is_external-never_example =
    is_external-never compressor datagram compressor-IsMasked
      (all_bytes-IsBytes datagram.bytes refl)

abbrev no_info : MgenInfo
no_info = record { flow_uid = none; mgen_flow_uid = none; mgen_seqno = none; wall_timestamp = none }

init_mgen_info-compress_example :
    then_read (compress compressor message) (λ q. some (ids (init_mgen_info 7 q no_info)))
    ≡ some (ids (init_mgen_info 7 message no_info))
unfolding get_mgen_hdr mgen_matches crc32 crc32_update
init_mgen_info-compress_example =
    init_mgen_info-compress compressor message 7 no_info message-IsUdp refl refl
