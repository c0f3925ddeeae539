-- ===== src/NetFilter.antt =====
-- `NetFilter` of src/net/NetFilter.hh and src/net/NetFilter.cc, with `isEthernetBroadcast` of
-- src/net/NetUtil.hh: the packets of the network that the radio sends, on the packets of Compress.
-- The node's own id and the nodes that `Net::contains` knows are fields. The code reads the headers
-- without a test of the size; a byte behind the end is 0 here.
pub mod Hops
pub mod Passed
pub mod Admit
mod Tests
use Prim.Native.Nat.{bit_and}
use dragonradio.Prelude.{
  ℕ, ◌+◌, ◌/◌, ◌%◌, Bool, not, ◌&&◌, ◌||◌, Option, none, some, List, [], ◌∷◌, if◌then◌else◌, ◌==◌,
  length,
}
use dragonradio.Packet.Control.{ehdr_size}
use dragonradio.Packet.{node_broadcast}
use dragonradio.Compress.{
  Packet, byte, slice, net16, net32, same_bytes, ethertype_ip, get_payload_size,
}

pub record NetFilter : Type 0 where
  pub my_node_id : ℕ
  pub contains : ℕ → Bool
  pub int_net : ℕ
  pub int_netmask : ℕ
  pub int_broadcast : ℕ
  pub ext_net : ℕ
  pub ext_netmask : ℕ
  pub ext_broadcast : ℕ

abbrev pub is_ethernet_broadcast : List ℕ → Bool
is_ethernet_broadcast host = same_bytes host (0xff ∷ 0xff ∷ 0xff ∷ 0xff ∷ 0xff ∷ 0xff ∷ [])

-- "Node number is last octet of the ethernet MAC address by convention"
abbrev pub curhop_id : Packet → ℕ
curhop_id p = byte 11 p.bytes

abbrev pub nexthop_id : Packet → ℕ
nexthop_id p = byte 5 p.bytes

-- "Only transmit IP packets that are either broadcast packets or where we are the source and we know
-- of the destination."
abbrev pub may_transmit : NetFilter → Packet → Bool
may_transmit f p =
    net16 12 p.bytes == ethertype_ip
    && (is_ethernet_broadcast (slice 0 6 p.bytes)
        || (curhop_id p == f.my_node_id && f.contains (nexthop_id p)))

-- `pkt->hdr.nexthop = kNodeBroadcast` for a packet to the broadcast address.
abbrev pub to_broadcast : ℕ → Packet → Packet
to_broadcast broadcast p =
    if net32 30 p.bytes == broadcast then record p { nexthop = node_broadcast } else p

-- The hops and nodes of a packet, and its payload size.
abbrev pub address : ℕ → ℕ → Packet → Packet
address src_id dest_id p = record p {
  curhop = curhop_id p;
  nexthop = nexthop_id p;
  src = src_id;
  dest = dest_id;
  payload_size = get_payload_size p.bytes;
}

-- "192.168.<SRN+100>.0/24": the difference is that of a `NodeId`, a byte.
abbrev pub ext_node : ℕ → ℕ
ext_node addr = (bit_and (addr / 256) 0xff + 156) % 256

-- `process`: the packet that passes, or nothing for one that is dropped.
unfoldable pub process : NetFilter → Packet → Option Packet
process f p =
    if ehdr_size + length p.bytes == 0
    then none
    else if not (may_transmit f p)
    then none
    else if bit_and (net32 26 p.bytes) f.int_netmask == f.int_net
    then some (
        address (bit_and (net32 26 p.bytes) 0xff) (bit_and (net32 30 p.bytes) 0xff)
          (to_broadcast f.int_broadcast p))
    else if bit_and (net32 26 p.bytes) f.ext_netmask == f.ext_net
    then some (
        address (ext_node (net32 26 p.bytes)) (ext_node (net32 30 p.bytes))
          (to_broadcast f.ext_broadcast p))
    else none
