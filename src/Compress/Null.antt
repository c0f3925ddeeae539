-- ===== src/Compress/Null.antt =====
-- Where `compress` follows a null pointer: on frames that end in the header that it turns to.
use dragonradio.Prelude.{
  ℕ, ◌+◌, ◌≤◌, ◌<◌, ◌≡◌, refl, ◌∙◌, ap, true, false, not, if◌then◌else◌, ◌==◌, ltb, is_some, length,
  Bool-cases, inl, inr, arith,
}
use dragonradio.Compress.{
  Packet, get_mgen_hdr, byte, has_ethernet_hdr, has_ip_hdr, has_udp_hdr, ipproto_udp,
}
use dragonradio.Compress.RoundTrip.{after_ethernet, is_ip_hdr, ethertype_matches}
use dragonradio.Compress.RoundTrip.Header.{version_matches}
use dragonradio.Compress.RoundTrip.Transport.{
  marked, is_mgen, get_mgen_hdr-marked, compress_mgen-flush,
}
use dragonradio.Compress.Pack.{
  PacketCompressor, CompressionBuffer, ethernet_matches, ip_matches, udp_matches, copy_ip, copy_udp,
  compress_mgen, compress_udp, compress_ip, compress,
}

udp_returns :
    (p : Packet) (buf : CompressionBuffer)
    → is_mgen p ≡ false
    → is_some (compress_udp (marked p) buf) ≡ has_udp_hdr p.bytes
unfolding compress_udp
udp_returns p buf n = elim (Bool-cases (has_udp_hdr p.bytes)) [
  | inr e ↦ rw e refl
  | inl e ↦ elim (Bool-cases (udp_matches p)) [
    | inl f ↦
        rw (e, f)
          (ap is_some (
            ap (compress_mgen (marked p) (copy_udp p buf)) (get_mgen_hdr-marked p)
            ∙ compress_mgen-flush p (copy_udp p buf) (get_mgen_hdr p) n))
    | inr f ↦ rw (e, f) refl
  ]
]

reaches_ip :
    (c : PacketCompressor) (p : Packet)
    → 14 ≤ length p.bytes
    → ethernet_matches p ≡ true
    → compress c p ≡ compress_ip c (record p { compressed = true }) after_ethernet
unfolding compress
reaches_ip c p h f =
    let there : has_ethernet_hdr p.bytes ≡ true = ground arith in rw (there, f) refl

-- The bytes up to the end of the last header that `compress` turns to, if the IP header passes.
abbrev pub needed : Packet → ℕ
needed p = if byte 23 p.bytes == ipproto_udp then 14 + 20 + 8 else 14 + 20

no_ip_hdr : (p : Packet) → length p.bytes < 34 → has_ip_hdr p.bytes ≡ false
no_ip_hdr p h = ground arith

too_short : (p : Packet) → length p.bytes < 34 → ltb (length p.bytes) (needed p) ≡ true
too_short p h = ground arith

udp_room :
    (p : Packet)
    → has_ip_hdr p.bytes ≡ true
    → (byte 23 p.bytes == ipproto_udp) ≡ true
    → byte 14 p.bytes ≡ 0x45
    → has_udp_hdr p.bytes ≡ not (ltb (length p.bytes) 42)
unfolding has_udp_hdr
udp_room p h u v = rw (h, u, v) refl

-- With an IP header that passes.
ip_returns :
    (c : PacketCompressor) (p : Packet) (buf : CompressionBuffer)
    → has_ip_hdr p.bytes ≡ true
    → ltb (length p.bytes) 34 ≡ false
    → ip_matches p ≡ true
    → is_mgen p ≡ false
    → is_some (compress_ip c (marked p) buf) ≡ not (ltb (length p.bytes) (needed p))
unfolding compress_ip
ip_returns c p buf h l m n = elim (Bool-cases (byte 23 p.bytes == ipproto_udp)) [
  | inr g ↦ rw (h, m, g, l) refl
  | inl g ↦
      rw (h, m, g)
        (udp_returns p (copy_ip c (marked p) buf) n ∙ udp_room p h g (version_matches p m))
]

-- For a packet whose data lie in its buffer, which has an Ethernet header that passes and an IP
-- header that passes if 34 bytes are there, and has no MGEN headers that pass: `compress` returns a packet if and only if there are 34
-- bytes, or 42 where the protocol is UDP. Otherwise it returns none, which is a null pointer that is
-- followed.
pub compress_null :
    (c : PacketCompressor) (p : Packet)
    → 14 ≤ length p.bytes
    → p.data_len ≤ length p.bytes
    → ethernet_matches p ≡ true
    → (34 ≤ length p.bytes → ip_matches p ≡ true)
    → is_mgen p ≡ false
    → is_some (compress c p) ≡ not (ltb (length p.bytes) (needed p))
unfolding compress_ip
compress_null c p h _ e m n =
    ap is_some (reaches_ip c p h e) ∙ (elim (Bool-cases (ltb (length p.bytes) 34)) [
      | inl s ↦
          let short : length p.bytes < 34 = ground arith in
          rw (no_ip_hdr p short, too_short p short) refl
      | inr l ↦
          let long : 34 ≤ length p.bytes = ground arith in
          ip_returns c p after_ethernet (is_ip_hdr p.bytes long (ethertype_matches p e)) l (m long)
            n
    ])
