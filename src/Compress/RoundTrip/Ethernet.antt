-- ===== src/Compress/RoundTrip/Ethernet.antt =====
-- The round trip of a packet of which only the Ethernet header is compressed.
use dragonradio.Prelude.{
  ℕ, suc, ◌+◌, ◌-◌, ◌*◌, ◌%◌, ◌≤◌, ◌≡◌, refl, ◌∙◌, ap, true, false, some, List, ◌++◌, arith, length,
  drop,
}
use dragonradio.Compress.{Packet, has_ip_hdr}
use dragonradio.Compress.Bytes.{slice-append-drop}
use dragonradio.Compress.Pack.{
  PacketCompressor, ethernet_matches, ip_matches, flush, compress, compress_ip,
}
use dragonradio.Compress.Unpack.{ether_header, decompress}
use dragonradio.Compress.RoundTrip.{
  round_trip, restored, IsSound, after_ethernet, is_ip_hdr, ethertype_matches, ether_header-slice,
  compress-ethernet, restored_by,
}

abbrev sent : Packet → Packet
sent p = flush (record p { compressed = true }) after_ethernet

compress-only :
    (c : PacketCompressor) (p : Packet)
    → 34 ≤ length p.bytes
    → ethernet_matches p ≡ true
    → ip_matches p ≡ false
    → compress c p ≡ some (sent p)
unfolding compress_ip
compress-only c p h e n =
    let there : has_ip_hdr p.bytes ≡ true = is_ip_hdr p.bytes h (ethertype_matches p e) in
    compress-ethernet c p h e ∙ rw (there, n) refl

decompress-only :
    (c : PacketCompressor) (p : Packet)
    → IsSound p
    → ethernet_matches p ≡ true
    → decompress c (sent p) ≡ some (restored p)
unfolding decompress
decompress-only c p s e =
    let n = length (drop 14 p.bytes) in
    let len : ((p.data_len + 1 + 65535 * 14) % 65536 + 14 + 65535 * (suc n - n)) % 65536
        ≡ p.data_len =
      omega (arith, s.len_small) in
    let back : ether_header p ++ drop 14 p.bytes ≡ p.bytes =
      ap (λ (t : List ℕ). t ++ drop 14 p.bytes) (ether_header-slice p s.bytes_small e)
      ∙ slice-append-drop 14 p.bytes (omega (arith, s.len_fits, s.len_headers)) in
    ap some (restored_by p _ (ether_header p ++ drop 14 p.bytes) len back)

-- For a packet whose bytes and lengths are in range: when its Ethernet header passes the tests of
-- `compress` and its IP header does not, `decompress` gives the packet back with the flag set and the
-- payload size computed again.
pub round_trip-ethernet :
    (c : PacketCompressor) (p : Packet)
    → IsSound p
    → ethernet_matches p ≡ true
    → ip_matches p ≡ false
    → round_trip c p ≡ some (restored p)
unfolding round_trip
round_trip-ethernet c p s e n =
    rw (compress-only c p (omega (arith, s.len_fits, s.len_headers)) e n) (decompress-only c p s e)
