-- ===== src/Compress/Unpack.antt =====
-- `DecompressionBuffer`, `decompress` and `radioPush` of src/net/PacketCompressor.cc.
use dragonradio.Prelude.{
  ℕ, zero, suc, ◌+◌, ◌-◌, ◌*◌, ◌%◌, Bool, true, false, not, ◌||◌, Option, none, some, List, [], ◌∷◌,
  ◌++◌, if◌then◌else◌, ◌==◌, ltb, length,
}
use dragonradio.Packet.Control.{write_at}
use dragonradio.Compress.{
  Packet, CompressionFlags, k_ethernet, k_ip, k_udp, k_mgen, k_darpa_mgen, k_ip_uncompressed,
  k_ip_internal, byte_flags, byte, slice, to_net16, to_net32, sub_size, ip_at, udp_at, mgen_at,
  ethertype_ip, ipproto_udp, has_ip_hdr, has_udp_hdr, get_payload_size,
}
use dragonradio.Compress.Checksum.{ip_checksum, udp_checksum}
use dragonradio.Compress.Crc.{crc32}
use dragonradio.Compress.Pack.{
  PacketCompressor, ether_addr, expected_ttl, ip_df, mgen_version, darpa_mgen_version, mgen_addr,
  mgen_rest,
}

-- `read` and `copyBytesOut`: the next `n` bytes of the packet, and those behind them.
abbrev pub consed : ℕ → Option (List ℕ × List ℕ) → Option (List ℕ × List ℕ)
consed b none = none
consed b (some (v, r)) = some (b ∷ v, r)

abbrev pub read : ℕ → List ℕ → Option (List ℕ × List ℕ)
read zero bs = some ([], bs)
read (suc n) [] = none
read (suc n) (b ∷ bs) = consed b (read n bs)

abbrev pub then_read : {A B : Type 0} → Option A → (A → Option B) → Option B
then_read none k = none
then_read (some a) k = k a

-- `class DecompressionBuffer`: the bytes from `inoff` on, and what is written.
pub record DecompressionBuffer : Type 0 where
  pub flags : CompressionFlags
  pub inp : List ℕ
  pub out : List ℕ

abbrev pub put : List ℕ → DecompressionBuffer → DecompressionBuffer
put v buf = record buf { out = buf.out ++ v }

abbrev pub inoff : Packet → DecompressionBuffer → ℕ
inoff p buf = length p.bytes - length buf.inp

-- `data_len` grows by `outoff - inoff` as a `uint16_t` does: 65535 is -1.
abbrev pub unflush : Packet → DecompressionBuffer → Packet
unflush p buf = record p {
  data_len = (p.data_len + length buf.out + 65535 * inoff p buf) % 65536;
  bytes = buf.out ++ buf.inp;
}

-- "Decompress Ethernet header"
abbrev pub ether_header : Packet → List ℕ
ether_header p = ether_addr p.nexthop ++ ether_addr p.curhop ++ to_net16 ethertype_ip

abbrev pub read_ttl : CompressionFlags → List ℕ → Option (List ℕ × List ℕ)
read_ttl f bs = if f.read_ttl == 0 then some (expected_ttl ∷ [], bs) else read 1 bs

abbrev pub read_proto : CompressionFlags → List ℕ → Option (List ℕ × List ℕ)
read_proto f bs = if ltb f.level k_udp then read 1 bs else some (ipproto_udp ∷ [], bs)

-- The address of a node on the external network, with its last byte.
abbrev pub external_addr : PacketCompressor → ℕ → List ℕ → List ℕ
external_addr c node last = to_net32 ((c.ext_net + (100 + node) * 256 + byte 0 last) % 4294967296)

abbrev pub read_two : ℕ → List ℕ → Option ((List ℕ × List ℕ) × List ℕ)
read_two n bs =
    then_read (read n bs) (λ (a, r). then_read (read n r) (λ (b, r'). some ((a, b), r')))

abbrev pub read_external : PacketCompressor → Packet → List ℕ → Option ((List ℕ × List ℕ) × List ℕ)
read_external c p bs =
    then_read (read_two 1 bs)
      (λ ((a, b), r). some ((external_addr c p.src a, external_addr c p.dest b), r))

abbrev pub read_addresses :
    PacketCompressor → Packet → CompressionFlags → List ℕ → Option ((List ℕ × List ℕ) × List ℕ)
read_addresses c p f bs =
    if f.ipaddr_type == k_ip_uncompressed
    then read_two 4 bs
    else if f.ipaddr_type == k_ip_internal
    then some (
      (to_net32 ((c.int_net + p.src) % 4294967296), to_net32 ((c.int_net + p.dest) % 4294967296)),
      bs,
    )
    else read_external c p bs

-- "Decompress IP header", the length and the checksum 0.
abbrev pub ip_header : List ℕ → List ℕ → List ℕ → List ℕ → List ℕ × List ℕ → List ℕ
ip_header tos id ttl proto (source, dest) =
    (0x45 ∷ tos) ++ (0 ∷ 0 ∷ id) ++ to_net16 ip_df ++ ttl ++ proto ++ (0 ∷ 0 ∷ source) ++ dest

abbrev pub unpack_ip : PacketCompressor → Packet → DecompressionBuffer → Option DecompressionBuffer
unpack_ip c p buf = then_read (read 1 buf.inp) (λ (tos, r₁). then_read (read 2 r₁) (λ (id, r₂).
    then_read (read_ttl buf.flags r₂) (λ (ttl, r₃).
      then_read (read_proto buf.flags r₃) (λ (proto, r₄).
        then_read (read_addresses c p buf.flags r₄) (λ (addrs, r₅).
          some (put (ip_header tos id ttl proto addrs) (record buf { inp = r₅ })))))))

-- "Decompress UDP header", the length and the checksum 0.
abbrev pub unpack_udp : DecompressionBuffer → Option DecompressionBuffer
unpack_udp buf = then_read (read_two 2 buf.inp) (λ ((sport, dport), r).
    some (put (sport ++ dport ++ (0 ∷ 0 ∷ 0 ∷ 0 ∷ [])) (record buf { inp = r })))

-- The MGEN header with the message size 0. `out` holds the port and the address that it repeats.
abbrev pub mgen_hdr : ℕ → List ℕ → List ℕ → List ℕ × List ℕ → List ℕ
mgen_hdr version out seqno (secs, usecs) =
    (0 ∷ 0 ∷ version ∷ 12 ∷ 0 ∷ 0 ∷ slice 36 2 out)
    ++ seqno
    ++ (if version == mgen_version then [] else 0 ∷ 0 ∷ 0 ∷ 0 ∷ [])
    ++ secs
    ++ usecs

abbrev pub mgen_geo : ℕ → List ℕ → List ℕ
mgen_geo version out = if version == mgen_version then mgen_rest else slice 15 1 out ++ mgen_rest

-- "Decompress MGEN header" of either version, "Copy out MGEN padding" and "Append checksum".
abbrev pub unpack_mgen : ℕ → Packet → DecompressionBuffer → Option DecompressionBuffer
unpack_mgen version p buf = then_read (read 4 buf.inp) (λ (seqno, r).
    then_read (read_two 4 r) (λ (times, r').
      let hdr = mgen_hdr version buf.out seqno times in
      let buf' =
        put (hdr ++ mgen_addr buf.out ++ mgen_geo version buf.out) (record buf { inp = r' }) in
      then_read (read (sub_size p.data_len (inoff p buf')) r')
        (λ (pad, r''). some (put (pad ++ (0 ∷ 0 ∷ 0 ∷ 0 ∷ [])) (record buf' { inp = r'' })))))

-- "Test for compressed MGEN header"
abbrev pub unpack_rest : Packet → DecompressionBuffer → Option DecompressionBuffer
unpack_rest p buf =
    if buf.flags.level == k_mgen
    then unpack_mgen mgen_version p buf
    else if buf.flags.level == k_darpa_mgen
    then unpack_mgen darpa_mgen_version p buf
    else some buf

abbrev pub unpack_transport : Packet → DecompressionBuffer → Option DecompressionBuffer
unpack_transport p buf =
    if ltb buf.flags.level k_udp then some buf else then_read (unpack_udp buf) (unpack_rest p)

abbrev pub unpack_network :
    PacketCompressor → Packet → DecompressionBuffer → Option DecompressionBuffer
unpack_network c p buf =
    if ltb buf.flags.level k_ip
    then some buf
    else then_read (unpack_ip c p buf) (unpack_transport p)

-- `decompress` up to the label `done`.
abbrev pub unpack : PacketCompressor → Packet → DecompressionBuffer → Option DecompressionBuffer
unpack c p buf =
    if ltb buf.flags.level k_ethernet
    then some buf
    else unpack_network c p (put (ether_header p) buf)

-- "Fix up MGEN length and checksum": the message size is written before the checksum is computed.
abbrev pub fix_mgen : Packet → Option Packet
fix_mgen p =
    if not (has_udp_hdr p.bytes)
    then none
    else let len = sub_size p.data_len mgen_at in
      let bs = write_at mgen_at (to_net16 len) p.bytes in
      let cksum = crc32 (slice mgen_at (sub_size len 4) bs) in
      some (record p { bytes = write_at (mgen_at + sub_size len 4) (to_net32 cksum) bs })

-- "Fix up UDP length and checksum"
abbrev pub fix_udp : Packet → Option Packet
fix_udp p =
    if not (has_udp_hdr p.bytes)
    then none
    else let len = sub_size p.data_len udp_at in
      let bs = write_at 38 (to_net16 len) p.bytes in
      some (record p { bytes = write_at 40 (to_net16 (udp_checksum len bs)) bs })

-- "Fix up IP length and checksum"
abbrev pub fix_ip : Packet → Option Packet
fix_ip p =
    if not (has_ip_hdr p.bytes)
    then none
    else let bs = write_at 16 (to_net16 (sub_size p.data_len ip_at)) p.bytes in
      some (record p { bytes = write_at 24 (to_net16 (ip_checksum (slice ip_at 20 bs))) bs })

abbrev pub fix_if : Bool → (Packet → Option Packet) → Option Packet → Option Packet
fix_if true f p = then_read p f
fix_if false f p = p

-- The three repairs, and "Cache payload size".
abbrev pub fix_up : ℕ → Packet → Option Packet
fix_up level p =
    let mgen = fix_if (level == k_mgen || level == k_darpa_mgen) fix_mgen (some p) in
    let udp = fix_if (not (ltb level k_udp)) fix_udp mgen in
    then_read (fix_if (not (ltb level k_ip)) fix_ip udp)
      (λ q. some (record q { payload_size = get_payload_size q.bytes }))

unfoldable pub decompress : PacketCompressor → Packet → Option Packet
decompress c p = elim p.bytes [
  | [] ↦ none
  | b ∷ bs ↦
      then_read (unpack c p (record { flags = byte_flags b; inp = bs; out = [] }))
        (λ buf. fix_up buf.flags.level (unflush p buf))
]

-- `radioPush`: the packet that goes to `radio_out`.
unfoldable pub radio_push : PacketCompressor → Packet → Option Packet
radio_push c p = if p.compressed then decompress c p else some p
