-- ===== src/NetFilter/Hops.antt =====
-- What `process` sets, and what the tests of the compressor say of it.
use Prim.Native.Nat.{bit_and}
use dragonradio.Prelude.{
  ℕ, ◌+◌, ◌≡◌, refl, ◌∙◌, Bool, true, false, not, ◌&&◌, none, some, List, [], ◌∷◌, arith,
  if◌then◌else◌, ◌==◌, ==_refl, length, Bool-cases, inl, inr,
}
use dragonradio.Compress.{
  Packet, byte, slice, net16, net32, same_bytes, ethertype_ip, get_payload_size,
}
use dragonradio.Compress.Pack.{PacketCompressor, ethernet_matches, is_internal}
use dragonradio.NetFilter.{
  NetFilter, curhop_id, nexthop_id, may_transmit, to_broadcast, address, ext_node, process,
}

-- A packet with its hops, and two nodes.
abbrev pub hops : Packet → ℕ → ℕ → Packet
hops p src_id dest_id = record p {
  curhop = curhop_id p;
  nexthop = nexthop_id p;
  src = src_id;
  dest = dest_id;
  payload_size = get_payload_size p.bytes;
}

-- The broadcast hop that was assigned first is lost.
address-to_broadcast : (b s d : ℕ) (p : Packet) → address s d (to_broadcast b p) ≡ hops p s d
address-to_broadcast b s d p = elim (Bool-cases (net32 30 p.bytes == b)) [
  | inl e ↦ rw e refl
  | inr e ↦ rw e refl
]

-- `process` as one decision: a packet from one of the two networks that may be transmitted passes
-- with the hops of its Ethernet header, whatever the broadcast addresses are, and any other packet is
-- dropped.
pub process-hops :
    (f : NetFilter) (p : Packet)
    → process f p ≡ (
        if not (may_transmit f p)
        then none
        else if bit_and (net32 26 p.bytes) f.int_netmask == f.int_net
        then some (hops p (bit_and (net32 26 p.bytes) 0xff) (bit_and (net32 30 p.bytes) 0xff))
        else if bit_and (net32 26 p.bytes) f.ext_netmask == f.ext_net
        then some (hops p (ext_node (net32 26 p.bytes)) (ext_node (net32 30 p.bytes)))
        else none)
unfolding process
process-hops f p =
    let full : (6 + length p.bytes == 0) ≡ false = ground arith in
    rw
      (
        full,
        address-to_broadcast f.int_broadcast (bit_and (net32 26 p.bytes) 0xff)
            (bit_and (net32 30 p.bytes) 0xff) p,
        address-to_broadcast f.ext_broadcast (ext_node (net32 26 p.bytes))
            (ext_node (net32 30 p.bytes)) p,
      )
      refl

-- The first five bytes of the Ethernet addresses of the nodes.
abbrev pub radio_prefix : List ℕ
radio_prefix = 0xc6 ∷ 0xff ∷ 0xff ∷ 0xff ∷ 0xff ∷ []

-- The internal packets between nodes that the filter is asked to pass.
pub record IsLocal (f : NetFilter) (p : Packet) : Type 0 where
  pub transmits : may_transmit f p ≡ true
  pub from : same_bytes (slice 6 5 p.bytes) radio_prefix ≡ true
  pub to : same_bytes (slice 0 5 p.bytes) radio_prefix ≡ true
  pub source : bit_and (net32 26 p.bytes) f.int_netmask ≡ f.int_net
  pub target : bit_and (net32 30 p.bytes) f.int_netmask ≡ f.int_net

-- The packet that `process` makes of such a packet.
abbrev pub filtered : Packet → Packet
filtered p = hops p (bit_and (net32 26 p.bytes) 0xff) (bit_and (net32 30 p.bytes) 0xff)

pub local_passes : (f : NetFilter) (p : Packet) → IsLocal f p → process f p ≡ some (filtered p)
local_passes f p l =
    let source : (bit_and (net32 26 p.bytes) f.int_netmask == f.int_net) ≡ true =
      rw l.source (==_refl f.int_net) in
    process-hops f p ∙ rw (l.transmits, source) refl

prefix_matches :
    (a b c d e n : ℕ)
    → same_bytes (a ∷ b ∷ c ∷ d ∷ e ∷ []) radio_prefix ≡ true
    → same_bytes (0xc6 ∷ 0xff ∷ 0xff ∷ 0xff ∷ 0xff ∷ n ∷ []) (a ∷ b ∷ c ∷ d ∷ e ∷ n ∷ []) ≡ true
prefix_matches a b c d e n h = ground arith

pub local_matches :
    (f : NetFilter) (p : Packet) → IsLocal f p → ethernet_matches (filtered p) ≡ true
local_matches f p l =
    let bs = p.bytes in
    let ip : (net16 12 bs == ethertype_ip) ≡ true = first_of _ _ l.transmits in
    let from =
      prefix_matches (byte 6 bs) (byte 7 bs) (byte 8 bs) (byte 9 bs) (byte 10 bs) (byte 11 bs)
        l.from in
    let to =
      prefix_matches (byte 0 bs) (byte 1 bs) (byte 2 bs) (byte 3 bs) (byte 4 bs) (byte 5 bs) l.to in
    all_three _ _ _ from to ip
  where
    first_of : (a b : Bool) → (a && b) ≡ true → a ≡ true
    first_of a b h = ground arith

    all_three : (a b c : Bool) → a ≡ true → b ≡ true → c ≡ true → (a && b && c) ≡ true
    all_three a b c x y z = rw (x, y, z) refl

pub local_internal :
    (f : NetFilter) (c : PacketCompressor) (p : Packet)
    → IsLocal f p
    → c.int_net ≡ f.int_net
    → c.int_netmask ≡ f.int_netmask
    → is_internal c (filtered p) ≡ true
unfolding is_internal
local_internal f c p l n m =
    rw
      (
        n,
        m,
        l.source,
        l.target,
        ==_refl f.int_net,
        ==_refl (bit_and (net32 26 p.bytes) 0xff),
        ==_refl (bit_and (net32 30 p.bytes) 0xff),
      )
      refl
