-- ===== src/Compress/Shifted.antt =====
-- `compress` and `decompress` on an IP packet that is not UDP and whose addresses are not internal:
-- the one writes the protocol behind the addresses, the other reads it in front of them.
use mathlib.Core.List.{append_assoc}
use dragonradio.Prelude.{
  ℕ, ◌≤◌, ◌≡◌, refl, ◌∙◌, ap, true, false, Option, some, List, ◌++◌, arith, length, drop,
}
use dragonradio.Packet.Control.{write_at}
use dragonradio.Compress.{
  Packet, CompressionFlags, slice, to_net16, sub_size, has_ip_hdr, get_payload_size,
}
use dragonradio.Compress.Bytes.{IsBytes}
use dragonradio.Compress.Checksum.{ip_checksum}
use dragonradio.Compress.Pack.{PacketCompressor, ethernet_matches, ip_matches, is_internal}
use dragonradio.Compress.Unpack.{
  DecompressionBuffer, then_read, ether_header, ip_header, unpack_ip, unpack_transport, unflush,
  fix_ip, fix_up, decompress,
}
use dragonradio.Compress.RoundTrip.{round_trip, is_ip_hdr}
use dragonradio.Compress.RoundTrip.Header.{
  ip_out, addr_out, addr_type, ttl_flag, ttl_out, read_ttl-out,
}
use dragonradio.Compress.RoundTrip.Addresses.{IsMasked, is_external-never}
use dragonradio.Compress.RoundTrip.Ip.{with_headers}
use dragonradio.Compress.RoundTrip.Network.{
  ends_at_ip, ip_flags, sent, compress-network, decompress_as, decompress-flush, cached,
}

addresses-shifted :
    (c : PacketCompressor) (p : Packet)
    → IsMasked c
    → IsBytes p.bytes
    → is_internal c p ≡ false
    → (addr_type c p ≡ 0) × (addr_out c p ≡ slice 26 8 p.bytes)
addresses-shifted c p m h e =
    (rw (e, is_external-never c p m h) refl, rw (e, is_external-never c p m h) refl)

-- The IP header that `decompress` writes then.
abbrev wrong_hdr : Packet → List ℕ
wrong_hdr p =
    ip_header (slice 15 1 p.bytes) (slice 18 2 p.bytes) (slice 22 1 p.bytes) (slice 26 1 p.bytes)
      (slice 27 4 p.bytes, slice 31 3 p.bytes ++ slice 23 1 p.bytes)

read-shifted :
    (c : PacketCompressor) (p q : Packet) (f : CompressionFlags) (r o : List ℕ)
    → f.level ≡ 2
    → f.ipaddr_type ≡ 0
    → f.read_ttl ≡ ttl_flag p
    → unpack_ip c q (record {
      flags = f;
      inp =
          slice 15 1 p.bytes
          ++ slice 18 2 p.bytes
          ++ ttl_out p
          ++ (slice 26 8 p.bytes ++ (slice 23 1 p.bytes ++ r));
      out = o;
    })
      ≡ some (record { flags = f; inp = r; out = o ++ wrong_hdr p })
read-shifted c p q f r o l a t =
    rw (read_ttl-out p f (slice 26 8 p.bytes ++ (slice 23 1 p.bytes ++ r)) t, l, a) refl

-- The protocol of `r` is the first byte of the source address of `p`, its source the four bytes
-- behind that, and its destination the last three bytes of the addresses with the protocol behind them.
pub record Shifted (p r : Packet) : Type 0 where
  pub proto : slice 23 1 r.bytes ≡ slice 26 1 p.bytes
  pub source : slice 26 4 r.bytes ≡ slice 27 4 p.bytes
  pub dest : slice 30 4 r.bytes ≡ slice 31 3 p.bytes ++ slice 23 1 p.bytes

-- What the repair of the IP header and the cached size make of a packet.
abbrev rewritten : Packet → Packet
rewritten q =
    let bs = write_at 16 (to_net16 (sub_size q.data_len 14)) q.bytes in
    let fixed = write_at 24 (to_net16 (ip_checksum (slice 14 20 bs))) bs in
    record q { bytes = fixed; payload_size = get_payload_size fixed }

abbrev misread : Packet → ℕ → List ℕ → Packet
misread p d t = record (with_headers p (wrong_hdr p) t) { data_len = d }

fix_ip-misread :
    (p : Packet) (d : ℕ) (t : List ℕ)
    → cached (fix_ip (misread p d t)) ≡ some (rewritten (misread p d t))
fix_ip-misread p d t =
    let there : has_ip_hdr (ether_header p ++ (wrong_hdr p ++ t)) ≡ true =
      is_ip_hdr (ether_header p ++ (wrong_hdr p ++ t)) (omega arith) refl in
    rw there refl

misread-Shifted : (p : Packet) (d : ℕ) (t : List ℕ) → Shifted p (rewritten (misread p d t))
misread-Shifted p d t = record { proto = refl; source = refl; dest = refl }

decompress-shifted :
    (c : PacketCompressor) (p : Packet)
    → IsMasked c
    → IsBytes p.bytes
    → is_internal c p ≡ false
    → (d : ℕ) × (decompress c (sent c p) ≡ some (rewritten (misread p d (drop 34 p.bytes))))
decompress-shifted c p m h e =
    let (kind, out) = addresses-shifted c p m h e in
    let proto = slice 23 1 p.bytes in
    let t = drop 34 p.bytes in
    let o = ip_out c p ++ proto in
    let q = sent c p in
    let f = ip_flags c p 2 in
    let inp : o ++ t
        ≡ slice 15 1 p.bytes
          ++ slice 18 2 p.bytes
          ++ ttl_out p
          ++ (slice 26 8 p.bytes ++ (proto ++ t)) =
      append_assoc (ip_out c p) proto t
      ∙ ap (λ (x : List ℕ). slice 15 1 p.bytes ++ slice 18 2 p.bytes ++ x)
          (append_assoc (ttl_out p) (addr_out c p) (proto ++ t)
            ∙ ap (λ (x : List ℕ). ttl_out p ++ (x ++ (proto ++ t))) out) in
    (
      _,
      decompress-flush c p 2 o t _ (omega arith)
          ∙ ap (decompress_as c q f) inp
          ∙ ap
              (λ (r : Option DecompressionBuffer).
                then_read (then_read r (unpack_transport q))
                  (λ b. fix_up b.flags.level (unflush q b)))
              (read-shifted c p q f t (ether_header p) refl kind refl)
          ∙ fix_ip-misread p _ t,
    )

-- With the masks of the two networks, when a packet is made of bytes, at least 34, its Ethernet and its
-- IP header pass, it is not UDP or its UDP header does not pass, and its addresses are not internal,
-- the round trip returns a packet whose protocol is the first byte of the source address, whose source
-- is the four bytes behind it, and whose destination is the last three bytes of the destination with
-- the protocol behind them.
pub round_trip-Shifted :
    (c : PacketCompressor) (p : Packet)
    → IsMasked c
    → IsBytes p.bytes
    → 34 ≤ length p.bytes
    → ethernet_matches p ≡ true
    → ip_matches p ≡ true
    → ends_at_ip p ≡ true
    → is_internal c p ≡ false
    → (r : Packet) × (round_trip c p ≡ some r) × Shifted p r
unfolding round_trip
round_trip-Shifted c p m h l e k u i =
    let (d, back) = decompress-shifted c p m h i in
    (
      rewritten (misread p d (drop 34 p.bytes)),
      rw (compress-network c p l e k u) back,
      misread-Shifted p d (drop 34 p.bytes),
    )
