-- ===== src/Compress.antt =====
-- src/net/PacketCompressor.hh and src/net/PacketCompressor.cc, with the header accessors of
-- src/Packet.hh and src/Packet.cc, the compression flags of src/Packet.hh and src/net/mgen.h. The
-- extended header of a packet is kept as the fields that the compressor reads, and `bytes` is what
-- follows it in the buffer: the offsets here count from there. A header is read where it stands: a
-- field in network order is the number that `ntohs` or `ntohl` gives. A null pointer that the code
-- follows and a `memcpy` from behind the end of the buffer have no result here.
pub mod Bytes
pub mod Masks
pub mod Checksum
pub mod Crc
pub mod Pack
pub mod Unpack
pub mod RoundTrip
pub mod Null
pub mod Info
pub mod Shifted
mod Tests
use dragonradio.Prelude.{
  ℕ, zero, suc, ◌+◌, ◌-◌, ◌*◌, ◌/◌, ◌%◌, Bool, true, false, not, ◌&&◌, ◌||◌, Option, none, some,
  List, [], ◌∷◌, ◌++◌, if◌then◌else◌, ◌==◌, ltb, length, get_or, drop,
}

-- `Packet`: `curhop` and `nexthop` of the header and its flag `compressed`, `src`, `dest` and
-- `data_len` of the extended header, the bytes behind it and the cached payload size.
pub record Packet : Type 0 where
  pub curhop : ℕ
  pub nexthop : ℕ
  pub compressed : Bool
  pub src : ℕ
  pub dest : ℕ
  pub data_len : ℕ
  pub payload_size : ℕ
  pub bytes : List ℕ

-- `CompressionFlags`, `CompressionType` and `CompressedIPAddress`
pub record CompressionFlags : Type 0 where
  pub level : ℕ
  pub ipaddr_type : ℕ
  pub read_ttl : ℕ

abbrev pub k_uncompressed : ℕ
k_uncompressed = 0

abbrev pub k_ethernet : ℕ
k_ethernet = 1

abbrev pub k_ip : ℕ
k_ip = 2

abbrev pub k_udp : ℕ
k_udp = 3

abbrev pub k_mgen : ℕ
k_mgen = 4

abbrev pub k_darpa_mgen : ℕ
k_darpa_mgen = 5

abbrev pub k_ip_uncompressed : ℕ
k_ip_uncompressed = 0

abbrev pub k_ip_internal : ℕ
k_ip_internal = 1

abbrev pub k_ip_external : ℕ
k_ip_external = 2

-- The bit fields in one byte, the first in the lowest bits.
abbrev pub flags_byte : CompressionFlags → ℕ
flags_byte f = f.level + 8 * f.ipaddr_type + 32 * f.read_ttl

abbrev pub byte_flags : ℕ → CompressionFlags
byte_flags b = record { level = b % 8; ipaddr_type = b / 8 % 4; read_ttl = b / 32 % 2 }

abbrev pub byte : ℕ → List ℕ → ℕ
byte i bs = get_or bs i 0

-- The `n` bytes from `i` on.
abbrev pub slice : ℕ → ℕ → List ℕ → List ℕ
slice i zero bs = []
slice i (suc n) bs = byte i bs ∷ slice (suc i) n bs

-- `ntohs` and `ntohl` of the field at `i`.
abbrev pub net16 : ℕ → List ℕ → ℕ
net16 i bs = 256 * byte i bs + byte (suc i) bs

abbrev pub net32 : ℕ → List ℕ → ℕ
net32 i bs = 65536 * net16 i bs + net16 (suc (suc i)) bs

-- What `htons` and `htonl` of a number store.
abbrev pub to_net16 : ℕ → List ℕ
to_net16 v = v / 256 % 256 ∷ v % 256 ∷ []

abbrev pub to_net32 : ℕ → List ℕ
to_net32 v = v / 16777216 % 256 ∷ v / 65536 % 256 ∷ to_net16 v

-- `memcmp` to 0
abbrev pub same_bytes : List ℕ → List ℕ → Bool
same_bytes [] [] = true
same_bytes [] (y ∷ ys) = false
same_bytes (x ∷ xs) [] = false
same_bytes (x ∷ xs) (y ∷ ys) = x == y && same_bytes xs ys

-- The difference of two `size_t`.
abbrev pub sub_size : ℕ → ℕ → ℕ
sub_size a b = if ltb a b then a + 18446744073709551616 - b else a - b

abbrev pub ether_size : ℕ
ether_size = 14

abbrev pub ip_at : ℕ
ip_at = 14

abbrev pub udp_at : ℕ
udp_at = 34

abbrev pub mgen_at : ℕ
mgen_at = 42

abbrev pub ethertype_ip : ℕ
ethertype_ip = 2048

abbrev pub ipproto_tcp : ℕ
ipproto_tcp = 6

abbrev pub ipproto_udp : ℕ
ipproto_udp = 17

-- `getEthernetHdr`, `getIPHdr` and `getUDPHdr`: whether the pointer is there. The UDP header follows
-- `ip_hl` words.
abbrev pub has_ethernet_hdr : List ℕ → Bool
has_ethernet_hdr bs = not (ltb (length bs) 14)

abbrev pub has_ip_hdr : List ℕ → Bool
has_ip_hdr bs = has_ethernet_hdr bs && net16 12 bs == ethertype_ip && not (ltb (length bs) 34)

-- `ip_hl * 4`
abbrev pub ip_hl : List ℕ → ℕ
ip_hl bs = byte 14 bs % 16 * 4

unfoldable pub has_udp_hdr : List ℕ → Bool
has_udp_hdr bs =
    has_ip_hdr bs && byte 23 bs == ipproto_udp && not (ltb (length bs) (14 + ip_hl bs + 8))

-- `getMGENHdr`: the offset of the header behind the UDP or the TCP header.
abbrev pub mgen_in_udp : List ℕ → Option ℕ
mgen_in_udp bs = if ltb (length bs) (14 + ip_hl bs + 8 + 20) then none else some (14 + ip_hl bs + 8)

abbrev pub tcp_hl : List ℕ → ℕ
tcp_hl bs = byte (14 + ip_hl bs + 12) bs / 16 * 4

abbrev pub mgen_in_tcp : List ℕ → Option ℕ
mgen_in_tcp bs =
    if ltb (length bs) (14 + ip_hl bs + 20) || ltb (length bs) (14 + ip_hl bs + tcp_hl bs + 20)
    then none
    else some (14 + ip_hl bs + tcp_hl bs)

abbrev pub mgen_start : List ℕ → Option ℕ
mgen_start bs =
    if byte 23 bs == ipproto_udp
    then mgen_in_udp bs
    else if byte 23 bs == ipproto_tcp
    then mgen_in_tcp bs
    else none

abbrev pub good_mgen : ℕ → List ℕ → Option ℕ → Option ℕ
good_mgen payload_size bs none = none
good_mgen payload_size bs (some off) =
    if net16 off bs == payload_size && (byte (off + 2) bs == 2 || byte (off + 2) bs == 4)
    then some off
    else none

unfoldable pub get_mgen_hdr : Packet → Option ℕ
get_mgen_hdr p =
    if has_ip_hdr p.bytes then good_mgen p.payload_size p.bytes (mgen_start p.bytes) else none

-- `getPayloadSize`, whose differences of a `size_t` wrap around.
unfoldable pub get_payload_size : List ℕ → ℕ
get_payload_size bs =
    if not (has_ip_hdr bs)
    then 0
    else if byte 23 bs == ipproto_udp
    then if ltb (length bs) (14 + ip_hl bs + 8)
      then 0
      else sub_size (net16 (14 + ip_hl bs + 4) bs) 8
    else if byte 23 bs == ipproto_tcp
    then if ltb (length bs) (14 + ip_hl bs + 20)
      then 0
      else sub_size (length bs) (14 + ip_hl bs + tcp_hl bs)
    else 0
