-- ===== src/Compress/RoundTrip/Transport.antt =====
-- The round trip of a packet of which the headers up to the UDP header are compressed.
use mathlib.Core.List.{append_assoc}
use dragonradio.Prelude.{
  ℕ, ◌+◌, ◌-◌, ◌≤◌, ◌≡◌, ◌≢◌, refl, sym, ◌∙◌, ap, Bool, true, false, Option, some, none, List, [],
  ◌∷◌, ◌++◌, arith, ◌==◌, ltb, length, length-append, drop,
}
use dragonradio.Compress.{
  Packet, byte, slice, net16, flags_byte, has_ip_hdr, has_udp_hdr, get_mgen_hdr, ipproto_udp,
}
use dragonradio.Compress.Bytes.{slice-append-drop}
use dragonradio.Compress.Pack.{
  PacketCompressor, CompressionBuffer, ethernet_matches, ip_matches, udp_matches, mgen_matches,
  is_internal, is_external, flush, copy_ip, copy_udp, compress_mgen, compress, compress_ip,
  compress_udp,
}
use dragonradio.Compress.Unpack.{
  DecompressionBuffer, then_read, ether_header, read_proto, put, unpack, unpack_ip, unpack_rest,
  unpack_transport, unflush, fix_up, fix_ip, fix_udp, decompress,
}
use dragonradio.Compress.RoundTrip.{
  round_trip, restored, IsSound, after_ethernet, is_ip_hdr, ethertype_matches, ether_header-slice,
  compress-ethernet, restored_by,
}
use dragonradio.Compress.RoundTrip.Header.{
  after_ip, ip_out, addr_out, ttl_out, copy_ip-after, version_matches,
}
use dragonradio.Compress.RoundTrip.Addresses.{IsMasked, read_addresses-out}
use dragonradio.Compress.RoundTrip.Ip.{ip_blank, unpack_ip-out, with_headers, fix_ip-blank}
use dragonradio.Compress.RoundTrip.Network.{ip_flags, decompress-flush, length_restored, cached}
use dragonradio.Compress.RoundTrip.Udp.{udp_blank, is_udp_hdr, fix_udp-blank}

-- Whether the packet has MGEN headers that `compress` leaves out.
abbrev pub mgen_passes : Packet → Option ℕ → Bool
mgen_passes p none = false
mgen_passes p (some off) = mgen_matches (byte 44 p.bytes) p

abbrev pub is_mgen : Packet → Bool
is_mgen p = mgen_passes p (get_mgen_hdr p)

abbrev pub marked : Packet → Packet
marked p = record p { compressed = true }

-- A packet whose UDP header passes too.
pub record IsUdp (p : Packet) : Type 0 where
  pub sound : IsSound p
  pub ethernet : ethernet_matches p ≡ true
  pub ip : ip_matches p ≡ true
  pub proto : byte 23 p.bytes ≡ ipproto_udp
  pub udp : udp_matches p ≡ true
  pub len_udp : 42 ≤ p.data_len
  pub ip_sum : net16 24 p.bytes ≢ 65535
  pub udp_sum : net16 40 p.bytes ≢ 65535

-- What `compress` has written when it turns to MGEN.
abbrev pub after_udp : PacketCompressor → Packet → CompressionBuffer
after_udp c p = copy_udp p (after_ip c p)

copy_ip-marked :
    (c : PacketCompressor) (p : Packet) → copy_ip c (marked p) after_ethernet ≡ after_ip c p
unfolding is_internal is_external
copy_ip-marked c p = copy_ip-after c (marked p)

pub get_mgen_hdr-marked : (p : Packet) → get_mgen_hdr (marked p) ≡ get_mgen_hdr p
unfolding get_mgen_hdr
get_mgen_hdr-marked p = refl

compress_udp-marked :
    (p : Packet) (buf : CompressionBuffer)
    → IsUdp p
    → compress_udp (marked p) buf
      ≡ compress_mgen (marked p) (copy_udp p buf) (get_mgen_hdr (marked p))
unfolding compress_udp
compress_udp-marked p buf u =
    let there : has_udp_hdr p.bytes ≡ true =
      is_udp_hdr p.bytes (omega (arith, u.sound.len_fits, u.len_udp))
        (ethertype_matches p u.ethernet) (version_matches p u.ip) u.proto in
    rw (there, u.udp) refl

compress_ip-marked :
    (c : PacketCompressor) (p : Packet)
    → IsUdp p
    → compress_ip c (marked p) after_ethernet
      ≡ compress_udp (marked p) (copy_ip c (marked p) after_ethernet)
unfolding compress_ip
compress_ip-marked c p u =
    let there : has_ip_hdr p.bytes ≡ true =
      is_ip_hdr p.bytes (omega (arith, u.sound.len_fits, u.sound.len_headers))
        (ethertype_matches p u.ethernet) in
    let proto : (byte 23 p.bytes == ipproto_udp) ≡ true = rw u.proto refl in
    rw (there, u.ip, proto) refl

pub compress-transport :
    (c : PacketCompressor) (p : Packet)
    → IsUdp p
    → compress c p ≡ compress_mgen (marked p) (after_udp c p) (get_mgen_hdr p)
compress-transport c p u =
    compress-ethernet c p (omega (arith, u.sound.len_fits, u.sound.len_headers)) u.ethernet
    ∙ compress_ip-marked c p u
    ∙ ap (compress_udp (marked p)) (copy_ip-marked c p)
    ∙ compress_udp-marked p (after_ip c p) u
    ∙ ap (λ (o : Option ℕ). compress_mgen (marked p) (after_udp c p) o) (get_mgen_hdr-marked p)

-- `decompress` up to MGEN on what `compress` has written up to there, `r` being what follows.
abbrev pub udp_out : PacketCompressor → Packet → List ℕ
udp_out c p = (ip_out c p ++ slice 34 2 p.bytes) ++ slice 36 2 p.bytes

abbrev pub udp_buffer : PacketCompressor → Packet → ℕ → List ℕ → DecompressionBuffer
udp_buffer c p l r = record {
  flags = ip_flags c p l;
  inp = r;
  out = ether_header p ++ ip_blank p ++ udp_blank p;
}

udp_input :
    (c : PacketCompressor) (p : Packet) (r : List ℕ)
    → udp_out c p ++ r
      ≡ slice 15 1 p.bytes
        ++ slice 18 2 p.bytes
        ++ ttl_out p
        ++ (addr_out c p ++ (slice 34 4 p.bytes ++ r))
udp_input c p r =
    let a = slice 34 2 p.bytes in
    let b = slice 36 2 p.bytes in
    let front = slice 15 1 p.bytes ++ slice 18 2 p.bytes in
    append_assoc (ip_out c p ++ a) b r
    ∙ append_assoc (ip_out c p) a (b ++ r)
    ∙ ap (λ (x : List ℕ). front ++ x) (append_assoc (ttl_out p) (addr_out c p) (a ++ (b ++ r)))

enter_network :
    (c : PacketCompressor) (q : Packet) (buf : DecompressionBuffer)
    → ltb buf.flags.level 3 ≡ false
    → unpack c q buf ≡ then_read (unpack_ip c q (put (ether_header q) buf)) (unpack_transport q)
enter_network c q buf h =
    let low : ltb buf.flags.level 1 ≡ false = ground arith in
    let mid : ltb buf.flags.level 2 ≡ false = ground arith in rw (low, mid) refl

-- The buffer when the IP header is read.
abbrev ip_buffer : PacketCompressor → Packet → Packet → ℕ → List ℕ → DecompressionBuffer
ip_buffer c p q l r = record {
  flags = ip_flags c p l;
  inp = slice 34 4 p.bytes ++ r;
  out = ether_header q ++ ip_blank p;
}

enter_transport :
    (c : PacketCompressor) (p q : Packet) (l : ℕ) (r : List ℕ)
    → ltb l 3 ≡ false
    → unpack_transport q (ip_buffer c p q l r)
      ≡ unpack_rest q
          (record (udp_buffer c p l r) { out = ether_header q ++ ip_blank p ++ udp_blank p })
enter_transport c p q l r h = rw h refl

-- The headers up to UDP are read back; `q` is the compressed packet.
pub unpack-transport :
    (c : PacketCompressor) (p q : Packet) (l : ℕ) (r : List ℕ)
    → IsMasked c
    → IsUdp p
    → q.src ≡ p.src
    → q.dest ≡ p.dest
    → ether_header q ≡ ether_header p
    → ltb l 3 ≡ false
    → unpack c q (record { flags = ip_flags c p l; inp = udp_out c p ++ r; out = [] })
      ≡ unpack_rest q (udp_buffer c p l r)
unpack-transport c p q l r m u s d e h =
    let f = ip_flags c p l in
    let t = addr_out c p ++ (slice 34 4 p.bytes ++ r) in
    let proto : read_proto f t ≡ some (slice 23 1 p.bytes, t) =
      rw h (ap (λ (b : ℕ). some (b ∷ [], t)) (sym u.proto)) in
    ap (λ (i : List ℕ). unpack c q (record { flags = f; inp = i; out = [] })) (udp_input c p r)
    ∙ enter_network c q
        (record {
          flags = f;
          inp = slice 15 1 p.bytes ++ slice 18 2 p.bytes ++ ttl_out p ++ t;
          out = [];
        })
        h
    ∙ ap (λ (o : Option DecompressionBuffer). then_read o (unpack_transport q))
        (unpack_ip-out c p q f (ether_header q) t t (slice 34 4 p.bytes ++ r) refl proto
          (read_addresses-out c p q f (slice 34 4 p.bytes ++ r) m u.sound.bytes_small s d refl))
    ∙ enter_transport c p q l r h
    ∙ ap
        (λ (o : List ℕ).
          unpack_rest q (record (udp_buffer c p l r) { out = o ++ ip_blank p ++ udp_blank p }))
        e

-- The repairs from the UDP header on.
pub fix_up-udp :
    (p : Packet)
    → IsUdp p
    → cached
        (then_read (fix_udp (with_headers p (ip_blank p ++ udp_blank p) (drop 42 p.bytes))) fix_ip)
      ≡ some (restored p)
fix_up-udp p u =
    let h = u.sound.bytes_small in
    let t = drop 42 p.bytes in
    let back : ether_header p ++ (slice 14 28 p.bytes ++ t) ≡ p.bytes =
      ap (λ (x : List ℕ). x ++ (slice 14 28 p.bytes ++ t)) (ether_header-slice p h u.ethernet)
      ∙ slice-append-drop 42 p.bytes (omega (arith, u.sound.len_fits, u.len_udp)) in
    ap (λ (o : Option Packet). cached (then_read o fix_ip))
      (fix_udp-blank p h u.len_udp u.proto u.udp u.udp_sum)
    ∙ ap cached (fix_ip-blank p (slice 34 8 p.bytes ++ t) h u.ip u.ip_sum)
    ∙ ap some (restored_by p p.data_len _ refl back)

abbrev sent : PacketCompressor → Packet → Packet
sent c p = flush (marked p) (after_udp c p)

pub mgen_matches-marked : (v : ℕ) (p : Packet) → mgen_matches v (marked p) ≡ mgen_matches v p
unfolding mgen_matches
mgen_matches-marked v p = refl

pub compress_mgen-flush :
    (p : Packet) (buf : CompressionBuffer) (o : Option ℕ)
    → mgen_passes p o ≡ false
    → compress_mgen (marked p) buf o ≡ some (flush (marked p) buf)
compress_mgen-flush p buf none n = refl
compress_mgen-flush p buf (some off) n = rw (mgen_matches-marked (byte 44 p.bytes) p, n) refl

compress-udp_only :
    (c : PacketCompressor) (p : Packet)
    → IsUdp p
    → is_mgen p ≡ false
    → compress c p ≡ some (sent c p)
compress-udp_only c p u n =
    compress-transport c p u ∙ compress_mgen-flush p (after_udp c p) (get_mgen_hdr p) n

decompress-udp_only :
    (c : PacketCompressor) (p : Packet)
    → IsMasked c
    → IsUdp p
    → decompress c (sent c p) ≡ some (restored p)
decompress-udp_only c p m u =
    let t = drop 42 p.bytes in
    let o = udp_out c p in
    let q = sent c p in
    let len : length (flags_byte (ip_flags c p 3) ∷ (o ++ t)) - length t ≡ 1 + length o =
      omega (arith, length-append o t) in
    decompress-flush c p 3 o t _ (omega arith)
    ∙ ap (λ (r : Option DecompressionBuffer). then_read r (λ b. fix_up b.flags.level (unflush q b)))
        (unpack-transport c p q 3 t m u refl refl refl refl)
    ∙ ap
        (λ (d : ℕ). cached (
          then_read
            (fix_udp (record (with_headers p (ip_blank p ++ udp_blank p) t) { data_len = d }))
            fix_ip))
        (length_restored p.data_len (1 + length o) 42 _ u.sound.len_small len)
    ∙ fix_up-udp p u

pub round_trip-transport :
    (c : PacketCompressor) (p : Packet)
    → IsMasked c
    → IsUdp p
    → is_mgen p ≡ false
    → round_trip c p ≡ some (restored p)
unfolding round_trip
round_trip-transport c p m u n = rw (compress-udp_only c p u n) (decompress-udp_only c p m u)
