-- ===== src/Compress/RoundTrip/Packed.antt =====
-- What `compress` makes of a packet with MGEN headers, and the round trips put together.
use mathlib.Core.List.{append_assoc}
use dragonradio.Prelude.{
  ℕ, ◌+◌, ◌-◌, ◌*◌, ◌%◌, ◌≤◌, ◌≡◌, length-append, refl, sym, ◌∙◌, ap, Bool, true, false, ◌&&◌, ◌||◌,
  Option, some, none, List, ◌∷◌, ◌++◌, arith, if◌then◌else◌, ◌==◌, ltb, length, drop, Bool-cases,
  inl, inr, ◌⊎◌, subst,
}
use dragonradio.Compress.{Packet, byte, slice, flags_byte, sub_size}
use dragonradio.Compress.Pack.{
  PacketCompressor, CompressionBuffer, flush_within, copy_mgen, flush, compress, compress_mgen,
}
use dragonradio.Compress.Bytes.{length-slice}
use dragonradio.Compress.RoundTrip.{restored}
use dragonradio.Compress.RoundTrip.Addresses.{IsMasked}
use dragonradio.Compress.RoundTrip.Network.{ip_flags}
use dragonradio.Compress.RoundTrip.Mgen.{IsMgen, mgen_tail}
use dragonradio.Compress.RoundTrip.Transport.{IsUdp, marked, after_udp, udp_out, compress-transport}
use dragonradio.Compress.{get_mgen_hdr, good_mgen, has_ip_hdr, ip_hl, net16, ipproto_udp}
use dragonradio.Compress.RoundTrip.{round_trip, is_ip_hdr, ethertype_matches}
use dragonradio.Compress.RoundTrip.Header.{version_matches}
use dragonradio.Compress.RoundTrip.Mgen.{mgen_matches-IsMgen}
use dragonradio.Compress.RoundTrip.Transport.{
  is_mgen, mgen_passes, mgen_matches-marked, round_trip-transport,
}
use dragonradio.Compress.RoundTrip.Message.{
  kept, packed, stamps, mgen_packed, darpa_packed, room_of, length-udp_out, decompress-mgen,
  decompress-darpa,
}

-- What `flush` makes of `k` bytes of padding behind the headers that end at `i`.
abbrev flushed : PacketCompressor → Packet → ℕ → List ℕ → ℕ → ℕ → Packet
flushed c p l out i k = record (marked p) {
  data_len = (p.data_len + (1 + length out) + 65535 * (i + k + 4)) % 65536;
  bytes = flags_byte (ip_flags c p l) ∷ (out ++ drop (i + k + 4) p.bytes);
}

-- That is `packed` when the padding goes up to the checksum.
flushed-packed :
    (c : PacketCompressor) (p : Packet) (l : ℕ) (w tail out : List ℕ) (n j k : ℕ)
    → j ≡ k
    → 44 + n + k + 4 ≡ p.data_len
    → out ≡ udp_out c p ++ (w ++ slice (44 + n) j p.bytes)
    → flushed c p l out (44 + n) j ≡ packed c p l w tail n k
flushed-packed c p l w tail out n j k e d o =
    ap (λ (x : List ℕ). flushed c p l x (44 + n) j) o
    ∙ ap (λ (i : ℕ). flushed c p l (udp_out c p ++ (w ++ slice (44 + n) i p.bytes)) (44 + n) i) e
    ∙ ap
        (λ (i : ℕ). record (marked p) {
          data_len = (p.data_len + (1 + length (kept c p l w tail n k)) + 65535 * i) % 65536;
          bytes = flags_byte (ip_flags c p l) ∷ (kept c p l w tail n k ++ drop i p.bytes);
        })
        d

stamped : (o a b d pad : List ℕ) → (((o ++ a) ++ b) ++ d) ++ pad ≡ o ++ ((a ++ b ++ d) ++ pad)
stamped o a b d pad = simp append_assoc refl

flushes :
    (p : Packet) (buf : CompressionBuffer)
    → buf.inoff ≤ length p.bytes
    → 1 + length buf.out ≤ buf.inoff
    → flush_within p buf ≡ some (flush p buf)
flushes p buf h k =
    let there : ltb (length p.bytes) buf.inoff ≡ false = ground arith in
    let fits : ltb (buf.inoff + 1) (1 + length buf.out) ≡ false = ground arith in
    rw (there, fits) refl

-- What is written of a version, `j` bytes of padding included.
length-stamped :
    (c : PacketCompressor) (p : Packet) (s j : ℕ) (a b d : ℕ)
    → length (
        (((udp_out c p ++ slice a 4 p.bytes) ++ slice b 4 p.bytes) ++ slice d 4 p.bytes)
        ++ slice s j p.bytes)
      ≤ 28 + j
length-stamped c p s j a b d =
    let o = udp_out c p in
    omega (
      arith,
      length-udp_out c p,
      length-append (((o ++ slice a 4 p.bytes) ++ slice b 4 p.bytes) ++ slice d 4 p.bytes)
          (slice s j p.bytes),
      length-append ((o ++ slice a 4 p.bytes) ++ slice b 4 p.bytes) (slice d 4 p.bytes),
      length-append (o ++ slice a 4 p.bytes) (slice b 4 p.bytes),
      length-append o (slice a 4 p.bytes),
      length-slice s j p.bytes,
    )

size_of : (d a : ℕ) → 42 ≤ d → a ≤ sub_size d 42 → sub_size d 42 ≡ d - 42
size_of d a h e = ground arith

copied-mgen :
    (c : PacketCompressor) (p : Packet)
    → IsUdp p
    → IsMgen 2 p
    → flush_within (marked p) (copy_mgen 2 (marked p) (after_udp c p)) ≡ some (mgen_packed c p)
unfolding copy_mgen
copied-mgen c p u g =
    let bs = p.bytes in
    let j = sub_size p.data_len 42 - 52 in
    let room = room_of p.data_len 52 u.len_udp g.room in
    let size = size_of p.data_len 52 u.len_udp g.room in
    flushes (marked p) (copy_mgen 2 (marked p) (after_udp c p))
      (omega (arith, size, u.sound.len_fits)) (omega (arith, length-stamped c p 90 j 50 54 58))
    ∙ ap some (
        flushed-packed c p 4 (stamps 2 bs) (mgen_tail 2 bs) _ 46 j (p.data_len - 94) (ground arith)
          (omega arith)
          (stamped (udp_out c p) (slice 50 4 bs) (slice 54 4 bs) (slice 58 4 bs) (slice 90 j bs)))

copied-darpa :
    (c : PacketCompressor) (p : Packet)
    → IsUdp p
    → IsMgen 4 p
    → flush_within (marked p) (copy_mgen 4 (marked p) (after_udp c p)) ≡ some (darpa_packed c p)
unfolding copy_mgen
copied-darpa c p u g =
    let bs = p.bytes in
    let j = sub_size p.data_len 42 - 57 in
    let room = room_of p.data_len 57 u.len_udp g.room in
    let size = size_of p.data_len 57 u.len_udp g.room in
    flushes (marked p) (copy_mgen 4 (marked p) (after_udp c p))
      (omega (arith, size, u.sound.len_fits)) (omega (arith, length-stamped c p 95 j 50 58 62))
    ∙ ap some (
        flushed-packed c p 5 (stamps 4 bs) (mgen_tail 4 bs) _ 51 j (p.data_len - 99) (ground arith)
          (omega arith)
          (stamped (udp_out c p) (slice 50 4 bs) (slice 58 4 bs) (slice 62 4 bs) (slice 95 j bs)))

copies :
    (c : PacketCompressor) (p : Packet) (o : Option ℕ)
    → mgen_passes p o ≡ true
    → compress_mgen (marked p) (after_udp c p) o
      ≡ flush_within (marked p) (copy_mgen (byte 44 p.bytes) (marked p) (after_udp c p))
copies c p none h = absurd (ground arith)
copies c p (some off) h = rw (mgen_matches-marked (byte 44 p.bytes) p, h) refl

passes-IsMgen : (p : Packet) (o : Option ℕ) → mgen_passes p o ≡ true → IsMgen (byte 44 p.bytes) p
passes-IsMgen p none h = absurd (ground arith)
passes-IsMgen p (some off) h = mgen_matches-IsMgen (byte 44 p.bytes) p h

and_false : (b : Bool) → (b && false) ≡ false
and_false true = refl
and_false false = refl

-- `getMGENHdr` finds a header of one of the two versions.
version-cases :
    (p : Packet) (b : Bool)
    → mgen_passes p (good_mgen p.payload_size p.bytes (if b then none else some 42)) ≡ true
    → (byte 44 p.bytes ≡ 2) ⊎ (byte 44 p.bytes ≡ 4)
version-cases p true h = absurd (ground arith)
version-cases p false h = elim (Bool-cases (byte 44 p.bytes == 2)) [
  | inl e ↦ inl (ground arith)
  | inr e ↦ elim (Bool-cases (byte 44 p.bytes == 4)) [
    | inl f ↦ inr (ground arith)
    | inr f ↦
        let test =
          net16 42 p.bytes == p.payload_size && (byte 44 p.bytes == 2 || byte 44 p.bytes == 4) in
        let off : test ≡ false = rw (e, f) (and_false (net16 42 p.bytes == p.payload_size)) in
        let no : true ≡ false =
          sym h ∙ ap (λ (t : Bool). mgen_passes p (if t then some 42 else none)) off in
        absurd (ground arith)
  ]
]

pub get_mgen_hdr-udp :
    (p : Packet)
    → IsUdp p
    → get_mgen_hdr p
      ≡ good_mgen p.payload_size p.bytes (if ltb (length p.bytes) 62 then none else some 42)
unfolding get_mgen_hdr
get_mgen_hdr-udp p u =
    let there : has_ip_hdr p.bytes ≡ true =
      is_ip_hdr p.bytes (omega (arith, u.sound.len_fits, u.sound.len_headers))
        (ethertype_matches p u.ethernet) in
    let size : ip_hl p.bytes ≡ 20 = omega (arith, version_matches p u.ip) in
    let proto : (byte 23 p.bytes == ipproto_udp) ≡ true = rw u.proto refl in
    rw (there, proto, size) refl

-- The two forms of a packet whose MGEN headers are left out.
pub data Form (c : PacketCompressor) (p : Packet) : Type 0 where
  plain : byte 44 p.bytes ≡ 2 → IsMgen 2 p → compress c p ≡ some (mgen_packed c p) → Form c p
  darpa : byte 44 p.bytes ≡ 4 → IsMgen 4 p → compress c p ≡ some (darpa_packed c p) → Form c p

pub compress-Form : (c : PacketCompressor) (p : Packet) → IsUdp p → is_mgen p ≡ true → Form c p
compress-Form c p u h =
    let sent : compress c p
        ≡ flush_within (marked p) (copy_mgen (byte 44 p.bytes) (marked p) (after_udp c p)) =
      compress-transport c p u ∙ copies c p (get_mgen_hdr p) h in
    let g = passes-IsMgen p (get_mgen_hdr p) h in
    let found : mgen_passes p
          (good_mgen p.payload_size p.bytes (if ltb (length p.bytes) 62 then none else some 42))
        ≡ true =
      ap (mgen_passes p) (sym (get_mgen_hdr-udp p u)) ∙ h in
    elim (version-cases p (ltb (length p.bytes) 62) found) [
      | inl v ↦
          let g' : IsMgen 2 p = subst (λ (i : ℕ). IsMgen i p) v g in
          plain v g' (
            sent
            ∙ ap (λ (i : ℕ). flush_within (marked p) (copy_mgen i (marked p) (after_udp c p))) v
            ∙ copied-mgen c p u g')
      | inr v ↦
          let g' : IsMgen 4 p = subst (λ (i : ℕ). IsMgen i p) v g in
          darpa v g' (
            sent
            ∙ ap (λ (i : ℕ). flush_within (marked p) (copy_mgen i (marked p) (after_udp c p))) v
            ∙ copied-darpa c p u g')
    ]

form_restored :
    (c : PacketCompressor) (p : Packet)
    → IsMasked c
    → IsUdp p
    → Form c p
    → round_trip c p ≡ some (restored p)
unfolding round_trip
form_restored c p m u (plain v g e) = rw e (decompress-mgen c p m u g v)
form_restored c p m u (darpa v g e) = rw e (decompress-darpa c p m u g v)

pub round_trip-message :
    (c : PacketCompressor) (p : Packet)
    → IsMasked c
    → IsUdp p
    → is_mgen p ≡ true
    → round_trip c p ≡ some (restored p)
round_trip-message c p m u h = form_restored c p m u (compress-Form c p u h)

-- With the masks of the two networks, for a UDP packet whose bytes and lengths are in range: when the
-- Ethernet, the IP and the UDP header pass and neither checksum is 0xffff, `decompress` gives the
-- packet back with the flag set and the payload size computed again, whether the addresses are
-- internal or not, and whether MGEN headers of either version are left out or not.
pub round_trip-udp :
    (c : PacketCompressor) (p : Packet) → IsMasked c → IsUdp p → round_trip c p ≡ some (restored p)
round_trip-udp c p m u = elim (Bool-cases (is_mgen p)) [
  | inl e ↦ round_trip-message c p m u e
  | inr e ↦ round_trip-transport c p m u e
]
