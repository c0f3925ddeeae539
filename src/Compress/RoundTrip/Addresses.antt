-- ===== src/Compress/RoundTrip/Addresses.antt =====
-- The addresses: how `compress` tells the networks apart, and what `decompress` reads back.
use Prim.Native.Nat.{bit_and}
use dragonradio.Prelude.{
  ℕ, ◌+◌, ◌/◌, ◌%◌, ◌<◌, ◌≡◌, refl, sym, ◌∙◌, ap, true, false, some, List, ◌++◌, arith, Bool-cases,
  inl, inr,
}
use dragonradio.Compress.{Packet, CompressionFlags, slice, net32, to_net32}
use dragonradio.Compress.Bytes.{IsBytes, to_net32-net32, net32-lt}
use dragonradio.Compress.Masks.{and-low_byte, and-prefix24, and-prefix16}
use dragonradio.Compress.Pack.{PacketCompressor, is_internal, is_external}
use dragonradio.Compress.Unpack.{read_addresses}
use dragonradio.Compress.RoundTrip.Header.{addr_type, addr_out}

-- The masks of the two networks: 10.10.10.0/24 and 192.168.0.0/16 in the code's comments.
pub record IsMasked (c : PacketCompressor) : Type 0 where
  pub internal : c.int_netmask ≡ 0xffffff00
  pub external : c.ext_netmask ≡ 0xffff0000

-- A network and a node make up the address that passed the test.
joined :
    (addr net node : ℕ)
    → addr < 4294967296
    → bit_and addr 0xffffff00 ≡ net
    → bit_and addr 0xff ≡ node
    → addr ≡ (net + node) % 4294967296
joined addr net node h e f = omega (arith, and-prefix24 addr h, and-low_byte addr)

pub source_internal :
    (c : PacketCompressor) (p : Packet)
    → IsMasked c
    → IsBytes p.bytes
    → is_internal c p ≡ true
    → to_net32 ((c.int_net + p.src) % 4294967296) ≡ slice 26 4 p.bytes
unfolding is_internal
source_internal c p m h e =
    let addr = net32 26 p.bytes in
    let net : bit_and addr c.int_netmask ≡ c.int_net = ground arith in
    let node : bit_and addr 0xff ≡ p.src = ground arith in
    to_net32-net32 26 _ p.bytes h (
      joined addr c.int_net p.src (net32-lt 26 p.bytes h) (ap (bit_and addr) (sym m.internal) ∙ net)
        node)

pub dest_internal :
    (c : PacketCompressor) (p : Packet)
    → IsMasked c
    → IsBytes p.bytes
    → is_internal c p ≡ true
    → to_net32 ((c.int_net + p.dest) % 4294967296) ≡ slice 30 4 p.bytes
unfolding is_internal
dest_internal c p m h e =
    let addr = net32 30 p.bytes in
    let net : bit_and addr c.int_netmask ≡ c.int_net = ground arith in
    let node : bit_and addr 0xff ≡ p.dest = ground arith in
    to_net32-net32 30 _ p.bytes h (
      joined addr c.int_net p.dest (net32-lt 30 p.bytes h)
        (ap (bit_and addr) (sym m.internal) ∙ net) node)

never_both :
    (s d net node : ℕ)
    → s < 4294967296
    → d < 4294967296
    → bit_and s 0xffff0000 ≡ net
    → bit_and d 0xffffff00 ≡ net
    → bit_and (d / 256) 0xff ≡ 100 + node
    → true ≡ false
never_both s d net node hs hd e f g =
    absurd (omega (arith, and-prefix16 s hs, and-prefix24 d hd, and-low_byte (d / 256)))

-- With the masks of the two networks, no packet passes the test for external addresses.
pub is_external-never :
    (c : PacketCompressor) (p : Packet) → IsMasked c → IsBytes p.bytes → is_external c p ≡ false
unfolding is_external
is_external-never c p m h = elim (Bool-cases (is_external c p)) [
  | inl e ↦
      let s = net32 26 p.bytes in
      let d = net32 30 p.bytes in
      let net : bit_and s c.ext_netmask ≡ c.ext_net = ground arith in
      let net' : bit_and d c.int_netmask ≡ c.ext_net = ground arith in
      let node : bit_and (d / 256) 0xff ≡ 100 + p.dest = ground arith in
      e
      ∙ never_both s d c.ext_net p.dest (net32-lt 26 p.bytes h) (net32-lt 30 p.bytes h)
          (ap (bit_and s) (sym m.external) ∙ net) (ap (bit_and d) (sym m.internal) ∙ net') node
  | inr e ↦ e
]

-- `decompress` reads the addresses back, in a packet `q` with the nodes of `p`.
pub read_addresses-out :
    (c : PacketCompressor) (p q : Packet) (f : CompressionFlags) (r : List ℕ)
    → IsMasked c
    → IsBytes p.bytes
    → q.src ≡ p.src
    → q.dest ≡ p.dest
    → f.ipaddr_type ≡ addr_type c p
    → read_addresses c q f (addr_out c p ++ r) ≡ some ((slice 26 4 p.bytes, slice 30 4 p.bytes), r)
read_addresses-out c p q f r m h s d k = elim (Bool-cases (is_internal c p)) [
  | inl e ↦
      rw (k, e, s, d)
        (ap (λ (a : List ℕ). some ((a, to_net32 ((c.int_net + p.dest) % 4294967296)), r))
            (source_internal c p m h e)
          ∙ ap (λ (a : List ℕ). some ((slice 26 4 p.bytes, a), r)) (dest_internal c p m h e))
  | inr e ↦ rw (k, e, is_external-never c p m h) refl
]
