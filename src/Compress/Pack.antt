-- ===== src/Compress/Pack.antt =====
-- `CompressionBuffer`, `compress` and `netPush` of src/net/PacketCompressor.cc. Where the tests of the
-- UDP and MGEN headers read as many bytes as `data_len` says, one behind the packet's end is 0.
use Prim.Native.Nat.{bit_and}
use dragonradio.Prelude.{
  ℕ, ◌+◌, ◌-◌, ◌*◌, ◌/◌, ◌%◌, Bool, true, not, ◌&&◌, ◌||◌, Option, none, some, List, [], ◌∷◌, ◌++◌,
  if◌then◌else◌, ◌==◌, ltb, length, drop,
}
use dragonradio.Compress.{
  Packet, CompressionFlags, k_uncompressed, k_ethernet, k_ip, k_udp, k_mgen, k_darpa_mgen,
  k_ip_uncompressed, k_ip_internal, k_ip_external, flags_byte, byte, slice, net16, net32, to_net32,
  same_bytes, sub_size, ether_size, ip_at, udp_at, mgen_at, ethertype_ip, ipproto_udp,
  has_ethernet_hdr, has_ip_hdr, ip_hl, has_udp_hdr, get_mgen_hdr,
}
use dragonradio.Compress.Checksum.{ip_checksum, udp_checksum}
use dragonradio.Compress.Crc.{crc32}

-- `class PacketCompressor`
pub record PacketCompressor : Type 0 where
  pub enabled : Bool
  pub int_net : ℕ
  pub int_netmask : ℕ
  pub ext_net : ℕ
  pub ext_netmask : ℕ

-- `class CompressionBuffer`: `out` is what is written behind the room for the flags.
pub record CompressionBuffer : Type 0 where
  pub flags : CompressionFlags
  pub inoff : ℕ
  pub out : List ℕ

abbrev pub copy_out : List ℕ → CompressionBuffer → CompressionBuffer
copy_out v buf = record buf { out = buf.out ++ v }

-- A byte behind the packet's end is 0 here; `flush_within` returns no packet then.
abbrev pub copy_bytes_out : ℕ → List ℕ → CompressionBuffer → CompressionBuffer
copy_bytes_out n bs buf = record buf {
  inoff = buf.inoff + n;
  out = buf.out ++ slice buf.inoff n bs;
}

abbrev pub skip : ℕ → CompressionBuffer → CompressionBuffer
skip n buf = record buf { inoff = buf.inoff + n }

abbrev pub set_level : ℕ → CompressionBuffer → CompressionBuffer
set_level l buf = record buf { flags = record buf.flags { level = l } }

-- `outoff`, the byte of the flags included.
abbrev pub outoff : CompressionBuffer → ℕ
outoff buf = 1 + length buf.out

-- `data_len` loses `inoff - outoff` as a `uint16_t` does: 65535 is -1.
abbrev pub flush : Packet → CompressionBuffer → Packet
flush p buf = record p {
  data_len = (p.data_len + outoff buf + 65535 * buf.inoff) % 65536;
  bytes = flags_byte buf.flags ∷ (buf.out ++ drop buf.inoff p.bytes);
}

-- `flush` where the input may end before `inoff`: nothing where a call of `copyBytesOut` has read behind
-- the end of the packet, or where the assertion of one fails, that what is written fits. Everywhere
-- else `inoff` is the end of a header that is there, and what is written is shorter.
abbrev pub flush_within : Packet → CompressionBuffer → Option Packet
flush_within p buf =
    if ltb (length p.bytes) buf.inoff || ltb (buf.inoff + 1) (outoff buf)
    then none
    else some (flush p buf)

abbrev pub new_buffer : CompressionBuffer
new_buffer = record {
  flags = record { level = k_uncompressed; ipaddr_type = 0; read_ttl = 0 };
  inoff = 0;
  out = [];
}

abbrev pub ether_addr : ℕ → List ℕ
ether_addr node = 0xc6 ∷ 0xff ∷ 0xff ∷ 0xff ∷ 0xff ∷ node ∷ []

-- "Test source address", "Test destination address", "Make sure this is an IP packet"
abbrev pub ethernet_matches : Packet → Bool
ethernet_matches p =
    same_bytes (ether_addr p.curhop) (slice 6 6 p.bytes)
    && same_bytes (ether_addr p.nexthop) (slice 0 6 p.bytes)
    && net16 12 p.bytes == ethertype_ip

abbrev pub expected_ttl : ℕ
expected_ttl = 254

-- `IP_DF`
abbrev pub ip_df : ℕ
ip_df = 0x4000

-- The tests of the IP header before it is compressed.
abbrev pub ip_matches : Packet → Bool
ip_matches p =
    byte 14 p.bytes / 16 == 4
    && byte 14 p.bytes % 16 == 5
    && net16 16 p.bytes == sub_size p.data_len ip_at
    && net16 20 p.bytes == ip_df
    && not (net16 24 p.bytes == 0xffffff)
    && ip_checksum (slice ip_at (ip_hl p.bytes) p.bytes) == 0

abbrev pub copy_ttl : Packet → CompressionBuffer → CompressionBuffer
copy_ttl p buf =
    if byte 22 p.bytes == expected_ttl
    then buf
    else copy_out (slice 22 1 p.bytes) (record buf { flags = record buf.flags { read_ttl = 1 } })

-- "Internal network has the form 10.10.10.<NODE>"
unfoldable pub is_internal : PacketCompressor → Packet → Bool
is_internal c p =
    bit_and (net32 26 p.bytes) c.int_netmask == c.int_net
    && bit_and (net32 26 p.bytes) 0xff == p.src
    && bit_and (net32 30 p.bytes) c.int_netmask == c.int_net
    && bit_and (net32 30 p.bytes) 0xff == p.dest

-- "External network has the form 192.168.(100 + <NODE>).N"
unfoldable pub is_external : PacketCompressor → Packet → Bool
is_external c p =
    bit_and (net32 26 p.bytes) c.ext_netmask == c.ext_net
    && bit_and (net32 26 p.bytes / 256) 0xff == 100 + p.src
    && bit_and (net32 30 p.bytes) c.int_netmask == c.ext_net
    && bit_and (net32 30 p.bytes / 256) 0xff == 100 + p.dest

abbrev pub set_ipaddr_type : ℕ → CompressionBuffer → CompressionBuffer
set_ipaddr_type a buf = record buf { flags = record buf.flags { ipaddr_type = a } }

abbrev pub copy_addresses : PacketCompressor → Packet → CompressionBuffer → CompressionBuffer
copy_addresses c p buf =
    if is_internal c p
    then set_ipaddr_type k_ip_internal buf
    else if is_external c p
    then set_ipaddr_type k_ip_external (
        copy_out (bit_and (net32 30 p.bytes) 0xff ∷ [])
          (copy_out (bit_and (net32 26 p.bytes) 0xff ∷ []) buf))
    else set_ipaddr_type k_ip_uncompressed
        (copy_out (slice 30 4 p.bytes) (copy_out (slice 26 4 p.bytes) buf))

-- "Compress IP header"
abbrev pub copy_ip : PacketCompressor → Packet → CompressionBuffer → CompressionBuffer
copy_ip c p buf = set_level k_ip (
    skip 20 (
      copy_addresses c p
        (copy_ttl p (copy_out (slice 18 2 p.bytes) (copy_out (slice 15 1 p.bytes) buf)))))

-- The label `ip_done` and what follows it.
abbrev pub ip_done : Packet → CompressionBuffer → Packet
ip_done p buf = flush p (copy_out (slice 23 1 p.bytes) buf)

abbrev pub udp_matches : Packet → Bool
udp_matches p =
    net16 38 p.bytes == sub_size p.data_len udp_at
    && not (net16 40 p.bytes == 0)
    && udp_checksum (sub_size p.data_len udp_at) p.bytes == 0

abbrev pub mgen_version : ℕ
mgen_version = 2

abbrev pub darpa_mgen_version : ℕ
darpa_mgen_version = 4

-- The sizes of the three MGEN headers of a version together.
abbrev pub mgen_headers : ℕ → ℕ
mgen_headers version = if version == mgen_version then 20 + 12 + 16 else 24 + 12 + 17

-- `kExpectedLatitude`, which is also the longitude, and `kExpectedAltitude`.
abbrev pub expected_latitude : List ℕ
expected_latitude = to_net32 ((999 + 180) * 60000)

abbrev pub expected_altitude : List ℕ
expected_altitude = to_net32 (4294967296 - 999)

-- `mgenstdaddr` at `i`: the destination is the packet's, and there is no host address.
abbrev pub mgen_addr : List ℕ → List ℕ
mgen_addr bs = slice 36 2 bs ++ (1 ∷ 4 ∷ slice 30 4 bs) ++ (0 ∷ 0 ∷ 0 ∷ 0 ∷ [])

-- `mgenrest`, and `darpa_mgenrest` behind its `tos`.
abbrev pub mgen_rest : List ℕ
mgen_rest = expected_latitude ++ expected_latitude ++ expected_altitude ++ (0 ∷ 0 ∷ 0 ∷ 0 ∷ [])

-- The last test of the headers. The `tos` of `darpa_mgenrest` is signed, that of the IP header is not.
abbrev pub rest_matches : ℕ → List ℕ → Bool
rest_matches version bs =
    if version == mgen_version
    then same_bytes (slice 74 16 bs) mgen_rest
    else byte 78 bs == byte 15 bs && ltb (byte 78 bs) 128 && same_bytes (slice 79 16 bs) mgen_rest

-- Where `mgenstdaddr` stands.
abbrev pub mgen_addr_at : ℕ → ℕ
mgen_addr_at version = if version == mgen_version then mgen_at + 20 else mgen_at + 24

-- The reserved field of a DARPA header.
abbrev pub reserved_matches : ℕ → List ℕ → Bool
reserved_matches version bs = version == mgen_version || net32 54 bs == 0

-- The tests of the MGEN headers, those of the length first; `version` is the one of the header.
unfoldable pub mgen_matches : ℕ → Packet → Bool
mgen_matches version p =
    let len = sub_size p.data_len mgen_at in
    not (ltb len (mgen_headers version + 4))
    && net16 42 p.bytes == len
    && byte 45 p.bytes == 12
    && net32 46 p.bytes == net16 36 p.bytes
    && reserved_matches version p.bytes
    && same_bytes (slice (mgen_addr_at version) 12 p.bytes) (mgen_addr p.bytes)
    && rest_matches version p.bytes
    && same_bytes (to_net32 (crc32 (slice mgen_at (len - 4) p.bytes)))
        (slice (mgen_at + (len - 4)) 4 p.bytes)

-- "Compress MGEN", "Copy out padding" and "Skip crc"
unfoldable pub copy_mgen : ℕ → Packet → CompressionBuffer → CompressionBuffer
copy_mgen version p buf =
    let pad = sub_size p.data_len mgen_at - (mgen_headers version + 4) in
    let seconds = if version == mgen_version then 54 else 58 in
    let kind = if version == mgen_version then k_mgen else k_darpa_mgen in
    skip 4 (
      copy_bytes_out pad p.bytes (
        set_level kind (
          skip (mgen_headers version) (
            copy_out (slice (seconds + 4) 4 p.bytes)
              (copy_out (slice seconds 4 p.bytes) (copy_out (slice 50 4 p.bytes) buf))))))

-- "Handle MGEN". `getMGENHdr` finds the header behind the UDP header of 8 bytes.
abbrev pub compress_mgen : Packet → CompressionBuffer → Option ℕ → Option Packet
compress_mgen p buf none = some (flush p buf)
compress_mgen p buf (some off) =
    let version = byte 44 p.bytes in
    if mgen_matches version p then flush_within p (copy_mgen version p buf) else some (flush p buf)

abbrev pub copy_udp : Packet → CompressionBuffer → CompressionBuffer
copy_udp p buf =
    set_level k_udp (skip 8 (copy_out (slice 36 2 p.bytes) (copy_out (slice 34 2 p.bytes) buf)))

-- "Handle UDP": nothing where `getUDPHdr` is null.
unfoldable pub compress_udp : Packet → CompressionBuffer → Option Packet
compress_udp p buf =
    if not (has_udp_hdr p.bytes)
    then none
    else if udp_matches p
    then compress_mgen p (copy_udp p buf) (get_mgen_hdr p)
    else some (ip_done p buf)

-- From "Get IP header" on: nothing where `getIPHdr` is null.
unfoldable pub compress_ip : PacketCompressor → Packet → CompressionBuffer → Option Packet
compress_ip c p buf =
    if not (has_ip_hdr p.bytes)
    then none
    else if not (ip_matches p)
    then some (flush p buf)
    else if byte 23 p.bytes == ipproto_udp
    then compress_udp p (copy_ip c p buf)
    else some (ip_done p (copy_ip c p buf))

unfoldable pub compress : PacketCompressor → Packet → Option Packet
compress c p =
    if not (has_ethernet_hdr p.bytes)
    then some p
    else if not (ethernet_matches p)
    then some p
    else compress_ip c (record p { compressed = true })
        (set_level k_ethernet (skip ether_size new_buffer))

-- `netPush`: the packet that goes to `net_out`.
unfoldable pub net_push : PacketCompressor → Packet → Option Packet
net_push c p = if c.enabled then compress c p else some p
