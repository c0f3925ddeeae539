-- ===== src/Compress/Info.antt =====
-- `Packet::initMGENInfo` of src/Packet.cc, with `getFlowId`, `getSequenceNumber` and `getTimestamp` of
-- src/net/mgen.h. A compressed packet is read behind its flags. The variable `mgen_secs`, which that
-- branch never sets, is an argument; the timestamp is read without a test of the size.
pub mod Agree
use dragonradio.Prelude.{
  ℕ, ◌+◌, ◌%◌, Bool, not, ◌||◌, Option, none, some, List, [], ◌∷◌, if◌then◌else◌, ◌==◌, ltb, length,
}
use dragonradio.Compress.{
  Packet, CompressionFlags, k_mgen, k_darpa_mgen, k_ip_uncompressed, k_ip_external, byte_flags,
  byte, net16, net32, get_mgen_hdr,
}

-- `flow_uid`, which has 16 bits, `mgen_flow_uid` and `mgen_seqno`, which have 32, and the seconds and
-- microseconds of `wall_timestamp`.
pub record MgenInfo : Type 0 where
  pub flow_uid : Option ℕ
  pub mgen_flow_uid : Option ℕ
  pub mgen_seqno : Option ℕ
  pub wall_timestamp : Option (ℕ × ℕ)

-- What the addresses take in a compressed packet.
abbrev pub address_size : ℕ → ℕ
address_size a = if a == k_ip_uncompressed then 8 else if a == k_ip_external then 2 else 0

-- The offset of the destination port: behind the flags, the IP header and the source port.
abbrev pub dport_at : CompressionFlags → ℕ
dport_at f = 1 + 3 + (if f.read_ttl == 0 then 0 else 1) + address_size f.ipaddr_type + 2

-- From "MGEN sequence number is next" on, at the offset `off`.
abbrev pub seqno_info : ℕ → CompressionFlags → List ℕ → ℕ → MgenInfo → MgenInfo
seqno_info mgen_secs f bs off info =
    if ltb (length bs) (off + 4)
    then info
    else let stamp = if f.level == k_darpa_mgen then off + 8 else off + 4 in
      record info {
        mgen_seqno = some (net32 off bs);
        wall_timestamp = some (mgen_secs, net32 (stamp + 4) bs);
      }

abbrev pub compressed_info : ℕ → CompressionFlags → List ℕ → MgenInfo → MgenInfo
compressed_info mgen_secs f bs info =
    if not (f.level == k_mgen || f.level == k_darpa_mgen)
    then info
    else if ltb (length bs) (dport_at f + 2)
    then info
    else seqno_info mgen_secs f bs (dport_at f + 2) (record info {
      flow_uid = some (net16 (dport_at f) bs);
      mgen_flow_uid = some (net16 (dport_at f) bs);
    })

abbrev pub header_info : List ℕ → Option ℕ → MgenInfo → MgenInfo
header_info bs none info = info
header_info bs (some off) info =
    let stamp = if byte (off + 2) bs == 4 then off + 16 else off + 12 in
    record {
      flow_uid = some (net32 (off + 4) bs % 65536);
      mgen_flow_uid = some (net32 (off + 4) bs);
      mgen_seqno = some (net32 (off + 8) bs);
      wall_timestamp = some (net32 stamp bs, net32 (stamp + 4) bs);
    }

unfoldable pub init_mgen_info : ℕ → Packet → MgenInfo → MgenInfo
init_mgen_info mgen_secs p info =
    if p.compressed
    then if ltb (length p.bytes) 1
      then info
      else compressed_info mgen_secs (byte_flags (byte 0 p.bytes)) p.bytes info
    else header_info p.bytes (get_mgen_hdr p) info
