-- ===== src/Compress/RoundTrip/Udp.antt =====
-- The UDP header that `decompress` writes, with the length and the checksum that `fix_udp` gives it.
use dragonradio.Prelude.{
  ℕ, zero, suc, ◌+◌, ◌-◌, ◌≤◌, ◌<◌, ◌≡◌, ◌≢◌, refl, sym, ◌∙◌, ap, true, some, List, [], ◌∷◌, ◌++◌,
  arith, length, drop,
}
use dragonradio.Compress.{
  Packet, byte, slice, net16, to_net16, sub_size, has_udp_hdr, ethertype_ip, ipproto_udp,
}
use dragonradio.Compress.Bytes.{
  IsBytes, to_net16-net16, slice-IsBytes, slice-add, slice-append, slice-drop, net16-lt,
}
use dragonradio.Compress.Checksum.{ip_checksum_update, udp_checksum, pseudo_sum, complement}
use dragonradio.Compress.Checksum.Sum.{checksum_restored, update-lt}
use dragonradio.Compress.Pack.{udp_matches}
use dragonradio.Compress.Unpack.{ether_header, fix_udp}
use dragonradio.Compress.RoundTrip.Ip.{ip_blank, with_headers}

pub is_udp_hdr :
    (bs : List ℕ)
    → 42 ≤ length bs
    → net16 12 bs ≡ ethertype_ip
    → byte 14 bs ≡ 0x45
    → byte 23 bs ≡ ipproto_udp
    → has_udp_hdr bs ≡ true
unfolding has_udp_hdr
is_udp_hdr bs h e v k = rw v (ground arith)

udp_length : (p : Packet) → udp_matches p ≡ true → net16 38 p.bytes ≡ sub_size p.data_len 34
udp_length p e = ground arith

udp_sum : (p : Packet) → udp_matches p ≡ true → udp_checksum (sub_size p.data_len 34) p.bytes ≡ 0
udp_sum p e = ground arith

zero-IsBytes : (bs : List ℕ) → IsBytes bs → IsBytes (0 ∷ bs)
zero-IsBytes bs h zero = omega arith
zero-IsBytes bs h (suc i) = h i

pseudo_sum-lt : (bs : List ℕ) → IsBytes bs → pseudo_sum bs < 65536
pseudo_sum-lt bs h =
    update-lt _ (slice 38 2 bs)
      (update-lt _ (0 ∷ slice 23 1 bs)
        (update-lt _ (slice 30 4 bs)
          (update-lt 0 (slice 26 4 bs) (omega arith) (slice-IsBytes 26 4 bs h))
          (slice-IsBytes 30 4 bs h))
        (zero-IsBytes (slice 23 1 bs) (slice-IsBytes 23 1 bs h)))
      (slice-IsBytes 38 2 bs h)

-- The header as it is written first, and with the length.
abbrev pub udp_blank : Packet → List ℕ
udp_blank p = slice 34 2 p.bytes ++ slice 36 2 p.bytes ++ (0 ∷ 0 ∷ 0 ∷ 0 ∷ [])

abbrev headed : Packet → List ℕ → List ℕ → Packet
headed p len sum = with_headers p (ip_blank p ++ slice 34 4 p.bytes ++ len ++ sum) (drop 42 p.bytes)

-- `udp_checksum` of the packet with the checksum 0 is the checksum that the header has.
udp_restored :
    (p : Packet)
    → IsBytes p.bytes
    → 42 ≤ p.data_len
    → udp_matches p ≡ true
    → net16 40 p.bytes ≢ 65535
    → udp_checksum (sub_size p.data_len 34) (headed p (slice 38 2 p.bytes) (0 ∷ 0 ∷ [])).bytes
      ≡ net16 40 p.bytes
udp_restored p h l e n =
    let len = sub_size p.data_len 34 in
    let size : len ≡ 8 + (p.data_len - 42) = ground arith in
    let payload = slice 42 (p.data_len - 42) p.bytes in
    let t = drop 42 p.bytes in
    let bs = (headed p (slice 38 2 p.bytes) (0 ∷ 0 ∷ [])).bytes in
    let front = ip_checksum_update (pseudo_sum p.bytes) (slice 34 6 p.bytes) in
    let small : front < 65536 =
      update-lt (pseudo_sum p.bytes) (slice 34 6 p.bytes) (pseudo_sum-lt p.bytes h)
        (slice-IsBytes 34 6 p.bytes h) in
    let old : slice 34 len p.bytes ≡ slice 34 8 p.bytes ++ payload =
      slice-add 34 8 (p.data_len - 42) len 42 p.bytes size refl in
    let behind : slice 42 (p.data_len - 42) bs ≡ payload =
      slice-append 42 (p.data_len - 42)
        (ether_header p ++ ip_blank p ++ slice 34 6 p.bytes ++ (0 ∷ 0 ∷ [])) t refl
      ∙ sym (slice-drop 42 (p.data_len - 42) p.bytes) in
    let new : slice 34 len bs ≡ slice 34 6 p.bytes ++ (0 ∷ 0 ∷ payload) =
      slice-add 34 8 (p.data_len - 42) len 42 bs size refl
      ∙ ap (λ (d : List ℕ). slice 34 6 p.bytes ++ (0 ∷ 0 ∷ d)) behind in
    ap (λ (d : List ℕ). complement (ip_checksum_update (pseudo_sum p.bytes) d)) new
    ∙ checksum_restored front (net16 40 p.bytes) payload small (net16-lt 40 p.bytes h)
        (slice-IsBytes 42 (p.data_len - 42) p.bytes h) n
        (ap (λ (d : List ℕ). complement (ip_checksum_update (pseudo_sum p.bytes) d)) (sym old)
          ∙ udp_sum p e)

pub fix_udp-blank :
    (p : Packet)
    → IsBytes p.bytes
    → 42 ≤ p.data_len
    → byte 23 p.bytes ≡ ipproto_udp
    → udp_matches p ≡ true
    → net16 40 p.bytes ≢ 65535
    → fix_udp (with_headers p (ip_blank p ++ udp_blank p) (drop 42 p.bytes))
      ≡ some (with_headers p (ip_blank p ++ slice 34 8 p.bytes) (drop 42 p.bytes))
fix_udp-blank p h l k e n =
    let len = sub_size p.data_len 34 in
    let there : has_udp_hdr (with_headers p (ip_blank p ++ udp_blank p) (drop 42 p.bytes)).bytes
        ≡ true =
      is_udp_hdr (with_headers p (ip_blank p ++ udp_blank p) (drop 42 p.bytes)).bytes (omega arith)
        refl refl k in
    rw there (
      ap
        (λ (v : List ℕ).
          some (headed p v (to_net16 (udp_checksum len (headed p v (0 ∷ 0 ∷ [])).bytes))))
        (to_net16-net16 38 len p.bytes h (udp_length p e))
      ∙ ap (λ (v : List ℕ). some (headed p (slice 38 2 p.bytes) v))
          (to_net16-net16 40 _ p.bytes h (sym (udp_restored p h l e n))))
