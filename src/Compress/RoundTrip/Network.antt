-- ===== src/Compress/RoundTrip/Network.antt =====
-- The round trip of a packet of which the Ethernet and the IP header are compressed.
use mathlib.Core.List.{append-nil, append_assoc}
use dragonradio.Prelude.{
  ℕ, ◌+◌, ◌-◌, ◌*◌, ◌%◌, ◌≤◌, ◌<◌, ◌≡◌, ◌≢◌, refl, sym, ◌∙◌, ap, Bool, true, false, not, ◌&&◌, ◌||◌,
  Option, some, List, [], ◌∷◌, ◌++◌, arith, ◌==◌, length, length-append, drop, Bool-cases, inl, inr,
}
use dragonradio.Compress.{
  Packet, CompressionFlags, byte, slice, net16, byte_flags, flags_byte, has_ip_hdr, has_udp_hdr,
  get_payload_size, ipproto_udp,
}
use dragonradio.Compress.Bytes.{slice-append-drop}
use dragonradio.Compress.Pack.{
  PacketCompressor, CompressionBuffer, ethernet_matches, ip_matches, udp_matches, is_internal,
  is_external, ip_done, compress, compress_ip, compress_udp,
}
use dragonradio.Compress.Unpack.{
  DecompressionBuffer, then_read, ether_header, read_addresses, unpack, unpack_transport, unflush,
  fix_up, fix_ip, decompress,
}
use dragonradio.Compress.RoundTrip.{
  round_trip, restored, IsSound, is_ip_hdr, ethertype_matches, ether_header-slice,
  compress-ethernet, restored_by,
}
use dragonradio.Compress.RoundTrip.Header.{
  after_ip, ip_out, addr_out, addr_type, ttl_flag, ttl_out, copy_ip-after, byte_flags-flags_byte,
  ttl_flag-lt, addr_type-lt,
}
use dragonradio.Compress.RoundTrip.Addresses.{IsMasked, read_addresses-out}
use dragonradio.Compress.RoundTrip.Ip.{ip_blank, unpack_ip-out, with_headers, fix_ip-blank}

-- The packet is not compressed beyond the IP header: it is not UDP, or its UDP header does not pass.
abbrev pub ends_at_ip : Packet → Bool
ends_at_ip p = not (byte 23 p.bytes == ipproto_udp) || (has_udp_hdr p.bytes && not (udp_matches p))

abbrev marked : Packet → Packet
marked p = record p { compressed = true }

abbrev pub ip_flags : PacketCompressor → Packet → ℕ → CompressionFlags
ip_flags c p l = record { level = l; ipaddr_type = addr_type c p; read_ttl = ttl_flag p }

pub byte_flags-ip_flags :
    (c : PacketCompressor) (p : Packet) (l : ℕ)
    → l < 8
    → byte_flags (flags_byte (ip_flags c p l)) ≡ ip_flags c p l
byte_flags-ip_flags c p l h =
    byte_flags-flags_byte l (addr_type c p) (ttl_flag p) h (addr_type-lt c p) (ttl_flag-lt p)

abbrev pub sent : PacketCompressor → Packet → Packet
sent c p = ip_done (marked p) (after_ip c p)

pub compress-network :
    (c : PacketCompressor) (p : Packet)
    → 34 ≤ length p.bytes
    → ethernet_matches p ≡ true
    → ip_matches p ≡ true
    → ends_at_ip p ≡ true
    → compress c p ≡ some (sent c p)
unfolding compress_ip compress_udp is_internal is_external
compress-network c p h e m k =
    let there : has_ip_hdr p.bytes ≡ true = is_ip_hdr p.bytes h (ethertype_matches p e) in
    compress-ethernet c p h e ∙ elim (Bool-cases (byte 23 p.bytes == ipproto_udp)) [
      | inr n ↦
          rw (there, m, n)
            (ap (λ (b : CompressionBuffer). some (ip_done (marked p) b)) (copy_ip-after c p))
      | inl n ↦
          let udp : has_udp_hdr p.bytes ≡ true = ground arith in
          let bad : udp_matches p ≡ false = ground arith in
          rw (udp, there, m, n, bad)
            (ap (λ (b : CompressionBuffer). some (ip_done (marked p) b)) (copy_ip-after c p))
    ]

-- What `decompress` does behind the flags.
abbrev pub decompress_as : PacketCompressor → Packet → CompressionFlags → List ℕ → Option Packet
decompress_as c q f bs =
    then_read (unpack c q (record { flags = f; inp = bs; out = [] }))
      (λ buf. fix_up buf.flags.level (unflush q buf))

pub decompress-flush :
    (c : PacketCompressor) (p : Packet) (l : ℕ) (o t : List ℕ) (d : ℕ)
    → l < 8
    → decompress c
        (record (marked p) { data_len = d; bytes = flags_byte (ip_flags c p l) ∷ (o ++ t) })
      ≡ decompress_as c
          (record (marked p) { data_len = d; bytes = flags_byte (ip_flags c p l) ∷ (o ++ t) })
          (ip_flags c p l)
          (o ++ t)
unfolding decompress
decompress-flush c p l o t d h =
    ap
      (λ (f : CompressionFlags).
        decompress_as c
          (record (marked p) { data_len = d; bytes = flags_byte (ip_flags c p l) ∷ (o ++ t) }) f
          (o ++ t))
      (byte_flags-ip_flags c p l h)

-- The length after `compress` has taken `i - o` from it and `decompress` has given it back.
pub length_restored :
    (d o i len : ℕ)
    → d < 65536
    → len ≡ o
    → ((d + o + 65535 * i) % 65536 + i + 65535 * len) % 65536 ≡ d
length_restored d o i len h e = omega arith

-- "Cache payload size"
abbrev pub cached : Option Packet → Option Packet
cached o = then_read o (λ q. some (record q { payload_size = get_payload_size q.bytes }))

decompress-network :
    (c : PacketCompressor) (p : Packet)
    → IsMasked c
    → IsSound p
    → ethernet_matches p ≡ true
    → ip_matches p ≡ true
    → is_internal c p ≡ true
    → net16 24 p.bytes ≢ 65535
    → decompress c (sent c p) ≡ some (restored p)
decompress-network c p m s e k i n =
    let t = drop 34 p.bytes in
    let o = ip_out c p ++ slice 23 1 p.bytes in
    let q = sent c p in
    let none_out : addr_out c p ≡ [] = rw i refl in
    let inp : o ++ t
        ≡ slice 15 1 p.bytes ++ slice 18 2 p.bytes ++ ttl_out p ++ (slice 23 1 p.bytes ++ t) =
      rw (none_out, append-nil (ttl_out p), append_assoc (ttl_out p) (slice 23 1 p.bytes) t) refl in
    let read : read_addresses c q (ip_flags c p 2) t
        ≡ some ((slice 26 4 p.bytes, slice 30 4 p.bytes), t) =
      ap (λ (a : List ℕ). read_addresses c q (ip_flags c p 2) (a ++ t)) (sym none_out)
      ∙ read_addresses-out c p q (ip_flags c p 2) t m s.bytes_small refl refl refl in
    let len : length (flags_byte (ip_flags c p 2) ∷ (o ++ t)) - length t ≡ 1 + length o =
      omega (arith, length-append o t) in
    let back : ether_header p ++ (slice 14 20 p.bytes ++ t) ≡ p.bytes =
      ap (λ (x : List ℕ). x ++ (slice 14 20 p.bytes ++ t)) (ether_header-slice p s.bytes_small e)
      ∙ slice-append-drop 34 p.bytes (omega (arith, s.len_fits, s.len_headers)) in
    decompress-flush c p 2 o t _ (omega arith)
    ∙ ap (decompress_as c q (ip_flags c p 2)) inp
    ∙ ap
        (λ (r : Option DecompressionBuffer).
          then_read (then_read r (unpack_transport q)) (λ b. fix_up b.flags.level (unflush q b)))
        (unpack_ip-out c p q (ip_flags c p 2) (ether_header p) (slice 23 1 p.bytes ++ t) t t refl
          refl read)
    ∙ ap (λ (d : ℕ). cached (fix_ip (record (with_headers p (ip_blank p) t) { data_len = d })))
        (length_restored p.data_len (1 + length o) 34 _ s.len_small len)
    ∙ ap cached (fix_ip-blank p t s.bytes_small k n)
    ∙ ap some (restored_by p p.data_len _ refl back)

-- With the masks of the two networks, for a packet whose bytes and lengths are in range: when the
-- Ethernet and the IP header pass, the addresses are internal, the packet is not UDP or its UDP header
-- does not pass, and the IP checksum is not 0xffff, `decompress` gives the packet back with the flag
-- set and the payload size computed again.
pub round_trip-network :
    (c : PacketCompressor) (p : Packet)
    → IsMasked c
    → IsSound p
    → ethernet_matches p ≡ true
    → ip_matches p ≡ true
    → ends_at_ip p ≡ true
    → is_internal c p ≡ true
    → net16 24 p.bytes ≢ 65535
    → round_trip c p ≡ some (restored p)
unfolding round_trip
round_trip-network c p m s e k u i n =
    rw (compress-network c p (omega (arith, s.len_fits, s.len_headers)) e k u)
      (decompress-network c p m s e k i n)
