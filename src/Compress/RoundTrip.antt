-- ===== src/Compress/RoundTrip.antt =====
-- A packet that is compressed and decompressed again: what the round trip is, and what the tests of
-- `compress` say about the headers.
pub mod Ethernet
pub mod Header
pub mod Addresses
pub mod Ip
pub mod Network
pub mod Udp
pub mod Mgen
pub mod Transport
pub mod Message
pub mod Packed
use dragonradio.Prelude.{
  ℕ, suc, ◌+◌, ◌-◌, ◌*◌, ◌/◌, ◌%◌, ◌≤◌, ◌<◌, ◌≡◌, refl, sym, ◌∙◌, ap, Bool, true, false, not, ◌&&◌,
  Option, none, some, List, [], ◌∷◌, ◌++◌, arith, if◌then◌else◌, ◌==◌, ltb, length, drop, ==_iff,
}
use dragonradio.Compress.{
  Packet, CompressionFlags, byte, slice, net16, to_net16, same_bytes, sub_size, ethertype_ip,
  has_ethernet_hdr, has_ip_hdr, get_payload_size,
}
use dragonradio.Compress.Bytes.{IsBytes, same_bytes_sound, to_net16-net16}
use dragonradio.Compress.Pack.{
  PacketCompressor, CompressionBuffer, set_level, skip, new_buffer, ethernet_matches, ether_addr,
  compress, compress_ip,
}
use dragonradio.Compress.Unpack.{then_read, ether_header, decompress}

-- `netPush` at the sender and `radioPush` at the receiver, with the compressor enabled.
unfoldable pub round_trip : PacketCompressor → Packet → Option Packet
round_trip c p = then_read (compress c p) (decompress c)

-- The packet with what the round trip changes: the flag and the cached payload size.
abbrev pub restored : Packet → Packet
restored p = record p { compressed = true; payload_size = get_payload_size p.bytes }

-- A packet as it is in memory: bytes, of which the headers and the data are there.
pub record IsSound (p : Packet) : Type 0 where
  pub bytes_small : IsBytes p.bytes
  pub len_small : p.data_len < 65536
  pub len_fits : p.data_len ≤ length p.bytes
  pub len_headers : 34 ≤ p.data_len

abbrev pub after_ethernet : CompressionBuffer
after_ethernet = set_level 1 (skip 14 new_buffer)

pub is_ip_hdr : (bs : List ℕ) → 34 ≤ length bs → net16 12 bs ≡ ethertype_ip → has_ip_hdr bs ≡ true
is_ip_hdr bs h e = ground arith

pub ethertype_matches : (p : Packet) → ethernet_matches p ≡ true → net16 12 p.bytes ≡ ethertype_ip
ethertype_matches p e = ground arith

-- The Ethernet header that `decompress` writes is the one that `compress` has left out.
pub ether_header-slice :
    (p : Packet) → IsBytes p.bytes → ethernet_matches p ≡ true → ether_header p ≡ slice 0 14 p.bytes
ether_header-slice p h e =
    let from : ether_addr p.curhop ≡ slice 6 6 p.bytes =
      same_bytes_sound (ether_addr p.curhop) (slice 6 6 p.bytes) (ground arith) in
    let to : ether_addr p.nexthop ≡ slice 0 6 p.bytes =
      same_bytes_sound (ether_addr p.nexthop) (slice 0 6 p.bytes) (ground arith) in
    let kind : to_net16 ethertype_ip ≡ slice 12 2 p.bytes =
      to_net16-net16 12 ethertype_ip p.bytes h (ethertype_matches p e) in
    ap (λ (t : List ℕ). t ++ ether_addr p.curhop ++ to_net16 ethertype_ip) to
    ∙ ap (λ (t : List ℕ). slice 0 6 p.bytes ++ t ++ to_net16 ethertype_ip) from
    ∙ ap (λ (t : List ℕ). slice 0 6 p.bytes ++ slice 6 6 p.bytes ++ t) kind

pub compress-ethernet :
    (c : PacketCompressor) (p : Packet)
    → 34 ≤ length p.bytes
    → ethernet_matches p ≡ true
    → compress c p ≡ compress_ip c (record p { compressed = true }) after_ethernet
unfolding compress
compress-ethernet c p h e =
    let there : has_ethernet_hdr p.bytes ≡ true = ground arith in rw (there, e) refl

-- A packet with the length and the bytes of the first one is the first one restored.
pub restored_by :
    (p : Packet) (d : ℕ) (bs : List ℕ)
    → d ≡ p.data_len
    → bs ≡ p.bytes
    → record p { compressed = true; data_len = d; bytes = bs; payload_size = get_payload_size bs }
      ≡ restored p
restored_by p d bs e h =
    ap
      (λ (t : ℕ). record p {
        compressed = true;
        data_len = t;
        bytes = bs;
        payload_size = get_payload_size bs;
      })
      e
    ∙ ap
        (λ (t : List ℕ). record p {
          compressed = true;
          bytes = t;
          payload_size = get_payload_size t;
        })
        h
