-- ===== src/Compress/RoundTrip/Ip.antt =====
-- The IP header that `decompress` writes, with the length and the checksum that `fix_ip` gives it.
use dragonradio.Prelude.{ℕ, ◌≡◌, ◌≢◌, refl, sym, ◌∙◌, ap, true, some, List, [], ◌∷◌, ◌++◌, arith}
use dragonradio.Compress.{Packet, CompressionFlags, slice, net16, to_net16, sub_size, has_ip_hdr}
use dragonradio.Compress.Bytes.{IsBytes, to_net16-net16}
use dragonradio.Compress.Checksum.{ip_checksum}
use dragonradio.Compress.Pack.{PacketCompressor, ip_matches, ip_df}
use dragonradio.Compress.Unpack.{
  read_proto, read_addresses, ether_header, ip_header, unpack_ip, fix_ip,
}
use dragonradio.Compress.RoundTrip.{is_ip_hdr}
use dragonradio.Compress.RoundTrip.Header.{
  version_matches, length_matches, offset_matches, header_checksum, header_with, ttl_flag, ttl_out,
  read_ttl-out,
}

-- The header as it is written first.
abbrev pub ip_blank : Packet → List ℕ
ip_blank p =
    ip_header (slice 15 1 p.bytes) (slice 18 2 p.bytes) (slice 22 1 p.bytes) (slice 23 1 p.bytes)
      (slice 26 4 p.bytes, slice 30 4 p.bytes)

-- `unpack_ip` on what `compress` has written, whatever the protocol and the addresses are read from.
pub unpack_ip-out :
    (c : PacketCompressor) (p q : Packet) (f : CompressionFlags) (o t u r : List ℕ)
    → f.read_ttl ≡ ttl_flag p
    → read_proto f t ≡ some (slice 23 1 p.bytes, u)
    → read_addresses c q f u ≡ some ((slice 26 4 p.bytes, slice 30 4 p.bytes), r)
    → unpack_ip c q (record {
      flags = f;
      inp = slice 15 1 p.bytes ++ slice 18 2 p.bytes ++ ttl_out p ++ t;
      out = o;
    })
      ≡ some (record { flags = f; inp = r; out = o ++ ip_blank p })
unpack_ip-out c p q f o t u r h e g = rw (read_ttl-out p f t h, e, g) refl

-- The part of the header before the checksum, with a length.
abbrev ip_front : ℕ → Packet → List ℕ
ip_front len p =
    (0x45 ∷ slice 15 1 p.bytes)
    ++ to_net16 len
    ++ slice 18 2 p.bytes
    ++ to_net16 ip_df
    ++ slice 22 2 p.bytes

ip_front-slice :
    (p : Packet)
    → IsBytes p.bytes
    → ip_matches p ≡ true
    → ip_front (sub_size p.data_len 14) p ≡ slice 14 10 p.bytes
ip_front-slice p h e =
    let tail = slice 18 2 p.bytes ++ to_net16 ip_df ++ slice 22 2 p.bytes in
    ap (λ (v : ℕ). v ∷ slice 15 1 p.bytes ++ to_net16 (sub_size p.data_len 14) ++ tail)
      (sym (version_matches p e))
    ∙ ap (λ (l : List ℕ). slice 14 2 p.bytes ++ l ++ tail)
        (to_net16-net16 16 (sub_size p.data_len 14) p.bytes h (length_matches p e))
    ∙ ap (λ (o : List ℕ). slice 14 6 p.bytes ++ o ++ slice 22 2 p.bytes)
        (to_net16-net16 20 ip_df p.bytes h (offset_matches p e))

abbrev summed : Packet → List ℕ → List ℕ
summed p front =
    front
    ++ to_net16 (ip_checksum (front ++ (0 ∷ 0 ∷ []) ++ slice 26 8 p.bytes))
    ++ slice 26 8 p.bytes

-- The bytes behind the extended header with the headers written again and `t` behind them.
abbrev pub with_headers : Packet → List ℕ → List ℕ → Packet
with_headers p hdr t = record p { compressed = true; bytes = ether_header p ++ (hdr ++ t) }

pub fix_ip-blank :
    (p : Packet) (t : List ℕ)
    → IsBytes p.bytes
    → ip_matches p ≡ true
    → net16 24 p.bytes ≢ 65535
    → fix_ip (with_headers p (ip_blank p) t) ≡ some (with_headers p (slice 14 20 p.bytes) t)
fix_ip-blank p t h e n =
    let there : has_ip_hdr (ether_header p ++ (ip_blank p ++ t)) ≡ true =
      is_ip_hdr (ether_header p ++ (ip_blank p ++ t)) (omega arith) refl in
    rw there (
      ap (λ (f : List ℕ). some (with_headers p (summed p f) t)) (ip_front-slice p h e)
      ∙ ap (λ (k : List ℕ). some (with_headers p (header_with k p.bytes) t))
          (header_checksum p h e n))
