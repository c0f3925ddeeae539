-- ===== src/NetFilter/Passed.antt =====
-- A packet that the filter passes, in the compressor and in the decompressor.
use mathlib.Core.List.{append-nil, append_assoc}
use dragonradio.Prelude.{ℕ, ◌≡◌, ◌≢◌, refl, ◌∙◌, ap, true, some, List, ◌∷◌, ◌++◌, arith, drop}
use dragonradio.Compress.{Packet, slice, net16, flags_byte}
use dragonradio.Compress.Pack.{PacketCompressor, ip_matches, compress}
use dragonradio.Compress.Unpack.{then_read}
use dragonradio.Compress.RoundTrip.{restored, IsSound, round_trip}
use dragonradio.Compress.RoundTrip.Addresses.{IsMasked}
use dragonradio.Compress.RoundTrip.Header.{ttl_flag, ttl_out}
use dragonradio.Compress.RoundTrip.Network.{ends_at_ip, sent, compress-network, round_trip-network}
use dragonradio.NetFilter.{NetFilter, process}
use dragonradio.NetFilter.Hops.{IsLocal, filtered, local_passes, local_matches, local_internal}

-- The bytes that are left of such a packet: the flags, the type of service, the identification, the
-- time to live unless it is 254, the protocol, and what stands behind the IP header.
abbrev pub left : Packet → List ℕ
left p =
    flags_byte (record { level = 2; ipaddr_type = 1; read_ttl = ttl_flag p })
    ∷ (slice 15 1 p.bytes
        ++ slice 18 2 p.bytes
        ++ ttl_out p
        ++ slice 23 1 p.bytes
        ++ drop 34 p.bytes)

-- The packet goes through the filter, the compressor and the decompressor.
pub record Carried (f : NetFilter) (c : PacketCompressor) (p : Packet) : Type 0 where
  pub compressed :
      (q : Packet) × (then_read (process f p) (compress c) ≡ some q) × (q.bytes ≡ left p)
  pub returned : then_read (process f p) (round_trip c) ≡ some (restored (filtered p))

filtered-IsSound : (p : Packet) → IsSound p → IsSound (filtered p)
filtered-IsSound p s = record {
  bytes_small = s.bytes_small;
  len_small = s.len_small;
  len_fits = s.len_fits;
  len_headers = s.len_headers;
}

module _ (f : NetFilter) (c : PacketCompressor) (p : Packet) (l : IsLocal f p)
    (n : c.int_net ≡ f.int_net) (m : c.int_netmask ≡ f.int_netmask) where
  sent-left : (sent c (filtered p)).bytes ≡ left p
  sent-left =
      let q = filtered p in
      rw
        (
          local_internal f c p l n m,
          append-nil (ttl_out q),
          append_assoc (ttl_out q) (slice 23 1 p.bytes) (drop 34 p.bytes),
        )
        refl

  -- The filter and the compressor have the same internal network, and the masks of the two networks
  -- are 255.255.255.0 and 255.255.0.0. For a packet whose bytes and lengths are in range, between two
  -- internal addresses, that may be transmitted and has the Ethernet addresses of two nodes, whose IP
  -- header passes the tests of `compress`, which is not UDP or has a UDP header that does not pass,
  -- and whose IP checksum is not 0xffff: `process` passes it, then `compress` leaves of its headers the
  -- type of service, the identification, the protocol and, unless it is 254, the time to live, and
  -- no address, and the round trip gives back the packet as `process` has passed it on, with the flag
  -- set and the payload size computed again.
  pub process-Carried :
      IsMasked c
      → IsSound p
      → ip_matches p ≡ true
      → ends_at_ip p ≡ true
      → net16 24 p.bytes ≢ 65535
      → Carried f c p
  process-Carried k s i e x =
      let q = filtered p in
      let ether = local_matches f p l in
      record {
        compressed = (
          sent c q,
          ap (λ o. then_read o (compress c)) (local_passes f p l)
              ∙ compress-network c q (omega (arith, s.len_fits, s.len_headers)) ether i e,
          sent-left,
        );
        returned =
            ap (λ o. then_read o (round_trip c)) (local_passes f p l)
            ∙ round_trip-network c q k (filtered-IsSound p s) ether i e (local_internal f c p l n m)
                x;
      }
