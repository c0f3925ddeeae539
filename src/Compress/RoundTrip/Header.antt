-- ===== src/Compress/RoundTrip/Header.antt =====
-- The IP header: what its tests say, and what `compress` writes of it as a list.
use Prim.Native.Nat.{bit_and}
use mathlib.Core.List.{append-nil, append_assoc}
use dragonradio.Prelude.{
  ℕ, ◌+◌, ◌*◌, ◌/◌, ◌%◌, ◌<◌, ◌≡◌, ◌≢◌, refl, sym, ◌∙◌, ap, true, some, List, [], ◌∷◌, ◌++◌, arith,
  if◌then◌else◌, ◌==◌, Bool-cases, inl, inr,
}
use dragonradio.Compress.{
  Packet, CompressionFlags, byte, byte_flags, flags_byte, slice, net16, net32, to_net16, sub_size,
  ip_hl,
}
use dragonradio.Compress.Bytes.{IsBytes, to_net16-net16, slice-IsBytes, net16-lt}
use dragonradio.Compress.Checksum.{ip_checksum, ip_checksum_update}
use dragonradio.Compress.Checksum.Sum.{checksum_restored, update-lt}
use dragonradio.Compress.Pack.{
  PacketCompressor, CompressionBuffer, expected_ttl, is_internal, is_external, copy_ip, copy_ttl,
  copy_addresses, ip_matches, ip_df, set_level, skip,
}
use dragonradio.Compress.Unpack.{read_ttl}
use dragonradio.Compress.RoundTrip.{after_ethernet}

-- What `compress` has found of the header of a packet that passes.
pub version_matches : (p : Packet) → ip_matches p ≡ true → byte 14 p.bytes ≡ 0x45
version_matches p e = ground arith

pub length_matches : (p : Packet) → ip_matches p ≡ true → net16 16 p.bytes ≡ sub_size p.data_len 14
length_matches p e = ground arith

pub offset_matches : (p : Packet) → ip_matches p ≡ true → net16 20 p.bytes ≡ ip_df
offset_matches p e = ground arith

pub sum_matches : (p : Packet) → ip_matches p ≡ true → ip_checksum (slice 14 20 p.bytes) ≡ 0
sum_matches p e =
    let size : ip_hl p.bytes ≡ 20 = omega (arith, version_matches p e) in
    ap (λ (n : ℕ). ip_checksum (slice 14 n p.bytes)) (sym size) ∙ ground arith

-- The header with a checksum in place of its own.
abbrev pub header_with : List ℕ → List ℕ → List ℕ
header_with cksum bs = slice 14 10 bs ++ cksum ++ slice 26 8 bs

-- `ip_checksum` of the header with the checksum 0 is the checksum that the header has.
pub header_checksum :
    (p : Packet)
    → IsBytes p.bytes
    → ip_matches p ≡ true
    → net16 24 p.bytes ≢ 65535
    → to_net16 (ip_checksum (header_with (0 ∷ 0 ∷ []) p.bytes)) ≡ slice 24 2 p.bytes
header_checksum p h e n =
    let first = ip_checksum_update 0 (slice 14 10 p.bytes) in
    let small : first < 65536 =
      update-lt 0 (slice 14 10 p.bytes) (omega arith) (slice-IsBytes 14 10 p.bytes h) in
    to_net16-net16 24 (ip_checksum (header_with (0 ∷ 0 ∷ []) p.bytes)) p.bytes h (
      sym (
        checksum_restored first (net16 24 p.bytes) (slice 26 8 p.bytes) small
          (net16-lt 24 p.bytes h) (slice-IsBytes 26 8 p.bytes h) n (sum_matches p e)))

-- The time to live: the flag, and what is written.
abbrev pub ttl_flag : Packet → ℕ
ttl_flag p = if byte 22 p.bytes == expected_ttl then 0 else 1

abbrev pub ttl_out : Packet → List ℕ
ttl_out p = if byte 22 p.bytes == expected_ttl then [] else slice 22 1 p.bytes

abbrev pub addr_type : PacketCompressor → Packet → ℕ
addr_type c p = if is_internal c p then 1 else if is_external c p then 2 else 0

abbrev pub addr_out : PacketCompressor → Packet → List ℕ
addr_out c p =
    if is_internal c p
    then []
    else if is_external c p
    then bit_and (net32 26 p.bytes) 0xff ∷ bit_and (net32 30 p.bytes) 0xff ∷ []
    else slice 26 4 p.bytes ++ slice 30 4 p.bytes

abbrev pub ip_out : PacketCompressor → Packet → List ℕ
ip_out c p = slice 15 1 p.bytes ++ slice 18 2 p.bytes ++ ttl_out p ++ addr_out c p

abbrev pub after_ip : PacketCompressor → Packet → CompressionBuffer
after_ip c p = record {
  flags = record { level = 2; ipaddr_type = addr_type c p; read_ttl = ttl_flag p };
  inoff = 34;
  out = ip_out c p;
}

abbrev set_ttl : Packet → CompressionBuffer → CompressionBuffer
set_ttl p buf = record buf {
  flags = record buf.flags { read_ttl = ttl_flag p };
  out = buf.out ++ ttl_out p;
}

abbrev before_ttl : Packet → CompressionBuffer
before_ttl p = record after_ethernet { out = slice 15 1 p.bytes ++ slice 18 2 p.bytes }

copy_ttl-before : (p : Packet) → copy_ttl p (before_ttl p) ≡ set_ttl p (before_ttl p)
copy_ttl-before p = elim (Bool-cases (byte 22 p.bytes == expected_ttl)) [
  | inl e ↦ rw e refl
  | inr e ↦ rw e refl
]

abbrev set_addresses : PacketCompressor → Packet → CompressionBuffer → CompressionBuffer
set_addresses c p buf = record buf {
  flags = record buf.flags { ipaddr_type = addr_type c p };
  out = buf.out ++ addr_out c p;
}

copy_addresses-set :
    (c : PacketCompressor) (p : Packet) (buf : CompressionBuffer)
    → copy_addresses c p buf ≡ set_addresses c p buf
copy_addresses-set c p buf = elim (Bool-cases (is_internal c p)) [
  | inl e ↦ rw (e, append-nil buf.out) refl
  | inr e ↦ elim (Bool-cases (is_external c p)) [
    | inl f ↦
        rw
          (
            e,
            f,
            append_assoc buf.out (bit_and (net32 26 p.bytes) 0xff ∷ [])
                (bit_and (net32 30 p.bytes) 0xff ∷ []),
          )
          refl
    | inr f ↦ rw (e, f, append_assoc buf.out (slice 26 4 p.bytes) (slice 30 4 p.bytes)) refl
  ]
]

pub copy_ip-after : (c : PacketCompressor) (p : Packet) → copy_ip c p after_ethernet ≡ after_ip c p
copy_ip-after c p =
    ap (λ (b : CompressionBuffer). set_level 2 (skip 20 (copy_addresses c p b))) (copy_ttl-before p)
    ∙ ap (λ (b : CompressionBuffer). set_level 2 (skip 20 b))
        (copy_addresses-set c p (set_ttl p (before_ttl p)))
    ∙ ap (λ (o : List ℕ). record (after_ip c p) { out = o })
        (append_assoc (slice 15 1 p.bytes ++ slice 18 2 p.bytes) (ttl_out p) (addr_out c p))

-- `decompress` reads back the time to live.
pub read_ttl-out :
    (p : Packet) (f : CompressionFlags) (r : List ℕ)
    → f.read_ttl ≡ ttl_flag p
    → read_ttl f (ttl_out p ++ r) ≡ some (slice 22 1 p.bytes, r)
read_ttl-out p f r h = elim (Bool-cases (byte 22 p.bytes == expected_ttl)) [
  | inl e ↦
      let ttl : expected_ttl ≡ byte 22 p.bytes = ground arith in
      rw (h, e) (ap (λ (t : ℕ). some (t ∷ [], r)) ttl)
  | inr e ↦ rw (h, e) refl
]

-- The flags in their byte.
pub byte_flags-flags_byte :
    (l a t : ℕ)
    → l < 8
    → a < 4
    → t < 2
    → byte_flags (flags_byte (record { level = l; ipaddr_type = a; read_ttl = t }))
      ≡ record { level = l; ipaddr_type = a; read_ttl = t }
byte_flags-flags_byte l a t hl ha ht =
    let e : (l + 8 * a + 32 * t) % 8 ≡ l = omega arith in
    let f : (l + 8 * a + 32 * t) / 8 % 4 ≡ a = omega arith in
    let g : (l + 8 * a + 32 * t) / 32 % 2 ≡ t = omega arith in rw (e, f, g) refl

pub ttl_flag-lt : (p : Packet) → ttl_flag p < 2
ttl_flag-lt p = ground arith

pub addr_type-lt : (c : PacketCompressor) (p : Packet) → addr_type c p < 4
addr_type-lt c p = ground arith
