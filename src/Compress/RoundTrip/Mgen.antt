-- ===== src/Compress/RoundTrip/Mgen.antt =====
-- The MGEN headers that `decompress` writes, with the size and the checksum that `fix_mgen` gives them.
use mathlib.Core.List.{append_assoc}
use dragonradio.Prelude.{
  ℕ, ◌+◌, ◌-◌, ◌≤◌, ◌≡◌, refl, sym, ◌∙◌, ap, Bool, true, not, ◌&&◌, some, List, [], ◌∷◌, ◌++◌,
  arith, if◌then◌else◌, ◌==◌, ltb, length, drop, ==_iff,
}
use dragonradio.Packet.Control.{write_at}
use dragonradio.Packet.Control.Area.{write_mid}
use dragonradio.Compress.{
  Packet, byte, slice, net16, net32, to_net16, to_net32, sub_size, has_udp_hdr, ipproto_udp,
}
use dragonradio.Compress.Bytes.{
  IsBytes, cons_eq, same_bytes_sound, to_net16-net16, to_net32-net32, slice-add, slice-append,
  slice_front, slice-drop_at, length-slice,
}
use dragonradio.Compress.Crc.{crc32}
use dragonradio.Compress.Pack.{
  mgen_matches, mgen_headers, mgen_addr, mgen_addr_at, mgen_rest, rest_matches, reserved_matches,
}
use dragonradio.Compress.Unpack.{ether_header, fix_mgen, mgen_geo}
use dragonradio.Compress.RoundTrip.{IsSound}
use dragonradio.Compress.RoundTrip.Ip.{ip_blank, with_headers}
use dragonradio.Compress.RoundTrip.Udp.{udp_blank, is_udp_hdr}

all_of :
    (s t u w x y z c : Bool)
    → (s && t && u && w && x && y && z && c) ≡ true
    → (s ≡ true)
      × (t ≡ true)
      × (u ≡ true)
      × (w ≡ true)
      × (x ≡ true)
      × (y ≡ true)
      × (z ≡ true)
      × (c ≡ true)
all_of s t u w x y z c e = (
  ground arith,
  ground arith,
  ground arith,
  ground arith,
  ground arith,
  ground arith,
  ground arith,
  ground arith,
)

-- What the tests of the MGEN headers say.
pub record IsMgen (v : ℕ) (p : Packet) : Type 0 where
  pub room : mgen_headers v + 4 ≤ sub_size p.data_len 42
  pub size : net16 42 p.bytes ≡ sub_size p.data_len 42
  pub flags : byte 45 p.bytes ≡ 12
  pub flow : net32 46 p.bytes ≡ net16 36 p.bytes
  pub reserved : reserved_matches v p.bytes ≡ true
  pub address : slice (mgen_addr_at v) 12 p.bytes ≡ mgen_addr p.bytes
  pub last : rest_matches v p.bytes ≡ true
  pub crc :
      to_net32 (crc32 (slice 42 (sub_size p.data_len 42 - 4) p.bytes))
      ≡ slice (42 + (sub_size p.data_len 42 - 4)) 4 p.bytes

not_less : (a b : ℕ) → not (ltb a b) ≡ true → b ≤ a
not_less a b h = ground arith

pub mgen_matches-IsMgen : (v : ℕ) (p : Packet) → mgen_matches v p ≡ true → IsMgen v p
unfolding mgen_matches
mgen_matches-IsMgen v p e =
    let len = sub_size p.data_len 42 in
    let (room, size, flags, flow, reserved, address, last, crc) = all_of _ _ _ _ _ _ _ _ e in
    record {
      room = not_less len (mgen_headers v + 4) room;
      size = (==_iff (net16 42 p.bytes) len).0 size;
      flags = (==_iff (byte 45 p.bytes) 12).0 flags;
      flow = (==_iff (net32 46 p.bytes) (net16 36 p.bytes)).0 flow;
      reserved = reserved;
      address = same_bytes_sound (slice (mgen_addr_at v) 12 p.bytes) (mgen_addr p.bytes) address;
      last = last;
      crc =
          same_bytes_sound (to_net32 (crc32 (slice 42 (len - 4) p.bytes)))
            (slice (42 + (len - 4)) 4 p.bytes) crc;
    }

-- The flow id that stands for the port.
flow-slice :
    (v : ℕ) (p : Packet)
    → IsBytes p.bytes
    → IsMgen v p
    → 0 ∷ 0 ∷ slice 36 2 p.bytes ≡ slice 46 4 p.bytes
flow-slice v p h m =
    let a = h 36 in
    let b = h 37 in
    cons_eq (omega arith)
      (cons_eq (omega arith) (cons_eq (omega arith) (cons_eq (omega arith) refl)))
    ∙ to_net32-net32 46 (net16 36 p.bytes) p.bytes h m.flow

-- The headers of a version behind the message size, as `decompress` writes them.
abbrev pub mgen_tail : ℕ → List ℕ → List ℕ
mgen_tail v bs =
    let seconds = if v == 2 then 54 else 58 in
    (v ∷ 12 ∷ 0 ∷ 0 ∷ slice 36 2 bs)
    ++ slice 50 4 bs
    ++ (if v == 2 then [] else 0 ∷ 0 ∷ 0 ∷ 0 ∷ [])
    ++ slice seconds 8 bs
    ++ mgen_addr bs
    ++ mgen_geo v bs

pub mgen_tail-slice :
    (p : Packet)
    → IsBytes p.bytes
    → byte 44 p.bytes ≡ 2
    → IsMgen 2 p
    → mgen_tail 2 p.bytes ≡ slice 44 46 p.bytes
mgen_tail-slice p h e m =
    let bs = p.bytes in
    ap (λ (x : List ℕ). 2 ∷ 12 ∷ x ++ slice 50 12 bs ++ mgen_addr bs ++ mgen_rest)
      (flow-slice 2 p h m)
    ∙ ap (λ (x : List ℕ). 2 ∷ 12 ∷ slice 46 16 bs ++ x ++ mgen_rest) (sym m.address)
    ∙ ap (λ (x : List ℕ). 2 ∷ 12 ∷ slice 46 28 bs ++ x)
        (sym (same_bytes_sound (slice 74 16 bs) mgen_rest m.last))
    ∙ cons_eq (sym e) (cons_eq (sym m.flags) refl)

tos_matches : (a b : ℕ) (c d : Bool) → (a == b && c && d) ≡ true → (b ≡ a) × (d ≡ true)
tos_matches a b c d e = (ground arith, ground arith)

pub darpa_tail-slice :
    (p : Packet)
    → IsBytes p.bytes
    → byte 44 p.bytes ≡ 4
    → IsMgen 4 p
    → mgen_tail 4 p.bytes ≡ slice 44 51 p.bytes
darpa_tail-slice p h e m =
    let bs = p.bytes in
    let (tos, rest) = tos_matches (byte 78 bs) (byte 15 bs) _ _ m.last in
    let reserved : 0 ∷ 0 ∷ 0 ∷ 0 ∷ [] ≡ slice 54 4 bs =
      to_net32-net32 54 0 bs h ((==_iff (net32 54 bs) 0).0 m.reserved) in
    ap
      (λ (x : List ℕ).
        4 ∷ 12 ∷ x
        ++ slice 50 4 bs
        ++ (0 ∷ 0 ∷ 0 ∷ 0 ∷ slice 58 8 bs)
        ++ mgen_addr bs
        ++ slice 15 1 bs
        ++ mgen_rest)
      (flow-slice 4 p h m)
    ∙ ap
        (λ (x : List ℕ).
          4 ∷ 12 ∷ slice 46 8 bs
          ++ x
          ++ slice 58 8 bs
          ++ mgen_addr bs
          ++ slice 15 1 bs
          ++ mgen_rest)
        reserved
    ∙ ap (λ (x : List ℕ). 4 ∷ 12 ∷ slice 46 20 bs ++ x ++ slice 15 1 bs ++ mgen_rest)
        (sym m.address)
    ∙ ap (λ (x : ℕ). 4 ∷ 12 ∷ slice 46 32 bs ++ (x ∷ mgen_rest)) tos
    ∙ ap (λ (x : List ℕ). 4 ∷ 12 ∷ slice 46 33 bs ++ x)
        (sym (same_bytes_sound (slice 79 16 bs) mgen_rest rest))
    ∙ cons_eq (sym e) (cons_eq (sym m.flags) refl)

-- The packet with blank headers up to UDP, and `t` as the UDP payload and what follows it.
abbrev pub blank : Packet → List ℕ → Packet
blank p t = with_headers p (ip_blank p ++ udp_blank p) t

abbrev pub zeros : List ℕ
zeros = 0 ∷ 0 ∷ 0 ∷ 0 ∷ []

-- The bytes that `fix_mgen` has found to be there.
abbrev pub front : Packet → List ℕ
front p = ether_header p ++ ip_blank p ++ udp_blank p

abbrev write_crc : Packet → List ℕ → List ℕ → Packet
write_crc p crc t = record (blank p []) {
  bytes = write_at (42 + sub_size (sub_size p.data_len 42) 4) crc (front p ++ t);
}

-- The size, the other headers and the padding are the front of the message.
message-slice :
    (v : ℕ) (p : Packet) (tail t : List ℕ) (n k : ℕ)
    → IsBytes p.bytes
    → IsMgen v p
    → tail ≡ slice 44 n p.bytes
    → to_net16 (sub_size p.data_len 42) ++ (tail ++ (slice (44 + n) k p.bytes ++ t))
      ≡ slice 42 (2 + n + k) p.bytes ++ t
message-slice v p tail t n k h m e =
    let bs = p.bytes in
    let pad = slice (44 + n) k bs in
    ap (λ (x : List ℕ). x ++ (tail ++ (pad ++ t))) (to_net16-net16 42 _ bs h m.size)
    ∙ ap (λ (x : List ℕ). slice 42 2 bs ++ (x ++ (pad ++ t))) e
    ∙ ap (λ (x : List ℕ). slice 42 2 bs ++ x) (sym (append_assoc (slice 44 n bs) pad t))
    ∙ ap (λ (x : List ℕ). slice 42 2 bs ++ (x ++ t))
        (sym (slice-add 44 n k (n + k) (44 + n) bs refl refl))
    ∙ ap (λ (x : List ℕ). x ++ t)
        (sym (slice-add 42 2 (n + k) (2 + n + k) 44 bs (omega arith) refl))

-- `n` bytes of headers behind the size and `k` bytes of padding.
pub fix_mgen-blank :
    (v : ℕ) (p : Packet) (tail : List ℕ) (n k : ℕ)
    → IsSound p
    → IsMgen v p
    → byte 23 p.bytes ≡ ipproto_udp
    → tail ≡ slice 44 n p.bytes
    → p.data_len ≡ 48 + n + k
    → fix_mgen (
        blank p
          ((0 ∷ 0 ∷ tail) ++ (slice (44 + n) k p.bytes ++ (zeros ++ drop p.data_len p.bytes))))
      ≡ some (blank p (drop 42 p.bytes))
fix_mgen-blank v p tail n k s m proto e d =
    let bs = p.bytes in
    let len = sub_size p.data_len 42 in
    let l = 2 + n + k in
    let size : len ≡ l + 4 = ground arith in
    let short : sub_size len 4 ≡ l = ground arith in
    let short' : l ≡ len - 4 = omega arith in
    let end = drop p.data_len bs in
    let message = slice 42 l bs in
    let old = (0 ∷ 0 ∷ tail) ++ (slice (44 + n) k bs ++ (zeros ++ end)) in
    let there : has_udp_hdr (blank p old).bytes ≡ true =
      is_udp_hdr (blank p old).bytes (omega arith) refl refl proto in
    let read : slice 42 (sub_size len 4) (front p ++ (message ++ (zeros ++ end)))
        ≡ slice 42 (len - 4) bs =
      ap (λ (i : ℕ). slice 42 i (front p ++ (message ++ (zeros ++ end)))) short
      ∙ slice-append 42 l (front p) (message ++ (zeros ++ end)) refl
      ∙ slice_front l message (zeros ++ end) (length-slice 42 l bs)
      ∙ ap (λ (i : ℕ). slice 42 i bs) short' in
    let behind : message ++ (slice (42 + (len - 4)) 4 bs ++ end) ≡ drop 42 bs =
      ap (λ (i : ℕ). message ++ (slice (42 + i) 4 bs ++ end)) (sym short')
      ∙ ap (λ (x : List ℕ). message ++ x)
          (slice-drop_at (42 + l) 4 p.data_len bs (omega arith) s.len_fits)
      ∙ slice-drop_at 42 l (42 + l) bs refl (omega (arith, s.len_fits)) in
    let place : length (front p ++ message) ≡ 42 + sub_size len 4 =
      omega (arith, length-slice 42 l bs) in
    rw there (
      ap
        (λ (x : List ℕ).
          some (write_crc p (to_net32 (crc32 (slice 42 (sub_size len 4) (front p ++ x)))) x))
        (message-slice v p tail (zeros ++ end) n k s.bytes_small m e)
      ∙ ap (λ (x : List ℕ). some (write_crc p (to_net32 (crc32 x)) (message ++ (zeros ++ end))))
          read
      ∙ ap (λ (x : List ℕ). some (write_crc p x (message ++ (zeros ++ end)))) m.crc
      ∙ ap (λ (x : List ℕ). some (record (blank p []) { bytes = x }))
          (write_mid (42 + sub_size len 4) (slice (42 + (len - 4)) 4 bs) (front p ++ message) zeros
            end place refl)
      ∙ ap (λ (x : List ℕ). some (blank p x)) behind)
