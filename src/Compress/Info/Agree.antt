-- ===== src/Compress/Info/Agree.antt =====
-- `init_mgen_info` before and after `compress`.
use mathlib.Core.List.{append_assoc}
use dragonradio.Prelude.{
  ℕ, zero, suc, ◌%◌, ◌+◌, ◌-◌, ◌*◌, ◌≤◌, ◌<◌, ◌≡◌, refl, sym, ◌∙◌, ap, Bool, true, false, ◌&&◌,
  ◌||◌, Option, none, some, List, [], ◌∷◌, ◌++◌, arith, if◌then◌else◌, ◌==◌, ltb, length,
  length-append, Bool-cases, inl, inr, drop,
}
use dragonradio.Compress.{
  Packet, CompressionFlags, byte, slice, net16, net32, flags_byte, byte_flags, get_mgen_hdr,
  good_mgen,
}
use dragonradio.Compress.Bytes.{net16-lt}
use dragonradio.Compress.Pack.{PacketCompressor, compress, is_internal, is_external}
use dragonradio.Compress.Unpack.{then_read}
use dragonradio.Compress.Info.{MgenInfo, address_size, dport_at, compressed_info, init_mgen_info}
use dragonradio.Compress.RoundTrip.Header.{ip_out, ttl_out, addr_out, ttl_flag, addr_type}
use dragonradio.Compress.RoundTrip.Network.{ip_flags, byte_flags-ip_flags}
use dragonradio.Compress.RoundTrip.Mgen.{IsMgen}
use dragonradio.Compress.RoundTrip.Message.{packed}
use dragonradio.Compress.RoundTrip.Transport.{IsUdp, is_mgen, mgen_passes}
use dragonradio.Compress.RoundTrip.Packed.{Form, plain, darpa, compress-Form, get_mgen_hdr-udp}

-- The flow, by both names, and the sequence number.
abbrev pub ids : MgenInfo → Option ℕ × Option ℕ × Option ℕ
ids i = (i.flow_uid, i.mgen_flow_uid, i.mgen_seqno)

-- The same flow under both names.
abbrev found : ℕ → ℕ → Option ℕ × Option ℕ × Option ℕ
found flow seqno = (some flow, some flow, some seqno)

byte-append : (a b : List ℕ) (k i j : ℕ) → length a ≡ k → j ≡ k + i → byte j (a ++ b) ≡ byte i b
byte-append [] b k i j h e = ap (λ (t : ℕ). byte t b) (omega arith)
byte-append (x ∷ a) b k i zero h e = absurd (omega arith)
byte-append (x ∷ a) b zero i (suc j) h e = absurd (omega arith)
byte-append (x ∷ a) b (suc k) i (suc j) h e = byte-append a b k i j (omega arith) (omega arith)

length-ttl_flag : (p : Packet) → length (ttl_out p) ≡ (if ttl_flag p == 0 then 0 else 1)
length-ttl_flag p = ground arith

length-address_size :
    (c : PacketCompressor) (p : Packet) → length (addr_out c p) ≡ address_size (addr_type c p)
length-address_size c p = elim (Bool-cases (is_internal c p)) [
  | inl e ↦ rw e refl
  | inr e ↦ elim (Bool-cases (is_external c p)) [ inl f ↦ rw (e, f) refl | inr f ↦ rw (e, f) refl ]
]

-- The bytes of a compressed packet up to the destination port.
abbrev port_front : PacketCompressor → Packet → ℕ → List ℕ
port_front c p l = flags_byte (ip_flags c p l) ∷ (ip_out c p ++ slice 34 2 p.bytes)

length-port_front :
    (c : PacketCompressor) (p : Packet) (l : ℕ)
    → length (port_front c p l) ≡ dport_at (ip_flags c p l)
length-port_front c p l = omega (
  arith,
  length-append (ip_out c p) (slice 34 2 p.bytes),
  length-append (ttl_out p) (addr_out c p),
  length-ttl_flag p,
  length-address_size c p,
)

not_less : (a b : ℕ) → b ≤ a → ltb a b ≡ false
not_less a b h = ground arith

info_at :
    (secs : ℕ) (f : CompressionFlags) (bs : List ℕ) (info : MgenInfo)
    → (f.level == 4 || f.level == 5) ≡ true
    → dport_at f + 6 ≤ length bs
    → ids (compressed_info secs f bs info)
      ≡ found (net16 (dport_at f) bs) (net32 (dport_at f + 2) bs)
info_at secs f bs info k h =
    let room : ltb (length bs) (dport_at f + 2) ≡ false =
      not_less (length bs) (dport_at f + 2) (omega arith) in
    let room' : ltb (length bs) (dport_at f + 2 + 4) ≡ false =
      not_less (length bs) (dport_at f + 2 + 4) (omega arith) in
    rw (k, room, room') refl

-- Six bytes at the destination port.
info_behind :
    (d : ℕ) (a r : List ℕ) (x y s t u v : ℕ)
    → length a ≡ d
    → (net16 d (a ++ (x ∷ y ∷ s ∷ t ∷ u ∷ v ∷ r)) ≡ 256 * x + y)
      × (net32 (d + 2) (a ++ (x ∷ y ∷ s ∷ t ∷ u ∷ v ∷ r)) ≡ 65536 * (256 * s + t) + (256 * u + v))
info_behind d a r x y s t u v h =
    let b = x ∷ y ∷ s ∷ t ∷ u ∷ v ∷ r in
    let e₀ : byte d (a ++ b) ≡ x = byte-append a b d 0 d h (omega arith) in
    let e₁ : byte (suc d) (a ++ b) ≡ y = byte-append a b d 1 (suc d) h (omega arith) in
    let e₂ : byte (d + 2) (a ++ b) ≡ s = byte-append a b d 2 (d + 2) h (omega arith) in
    let e₃ : byte (suc (d + 2)) (a ++ b) ≡ t = byte-append a b d 3 (suc (d + 2)) h (omega arith) in
    let e₄ : byte (suc (suc (d + 2))) (a ++ b) ≡ u =
      byte-append a b d 4 (suc (suc (d + 2))) h (omega arith) in
    let e₅ : byte (suc (suc (suc (d + 2)))) (a ++ b) ≡ v =
      byte-append a b d 5 (suc (suc (suc (d + 2)))) h (omega arith) in
    (rw (e₀, e₁) refl, rw (e₂, e₃, e₄, e₅) refl)

-- The numbers in a compressed packet with the sequence number in front of `w`.
packed-ids :
    (c : PacketCompressor) (p : Packet) (l secs : ℕ) (w tail : List ℕ) (n k : ℕ) (info : MgenInfo)
    → l < 8
    → (l == 4 || l == 5) ≡ true
    → ids (init_mgen_info secs (packed c p l (slice 50 4 p.bytes ++ w) tail n k) info)
      ≡ found (net16 36 p.bytes) (net32 50 p.bytes)
unfolding init_mgen_info
packed-ids c p l secs w tail n k info small lv =
    let f = ip_flags c p l in
    let q = packed c p l (slice 50 4 p.bytes ++ w) tail n k in
    let front = port_front c p l in
    let r = w ++ slice (44 + n) k p.bytes ++ drop p.data_len p.bytes in
    let rest = slice 36 2 p.bytes ++ slice 50 4 p.bytes ++ r in
    let shape : q.bytes ≡ front ++ rest = simp append_assoc refl in
    let size : length (front ++ rest) ≡ dport_at f + 6 + length r =
      omega (arith, length-append front rest, length-port_front c p l) in
    let (port, seqno) =
      info_behind (dport_at f) front r (byte 36 p.bytes) (byte 37 p.bytes) (byte 50 p.bytes)
        (byte 51 p.bytes) (byte 52 p.bytes) (byte 53 p.bytes) (length-port_front c p l) in
    let there : ltb (length q.bytes) 1 ≡ false = not_less (length q.bytes) 1 (omega arith) in
    ap
      (λ (b : Bool).
        ids (if b then info else compressed_info secs (byte_flags (byte 0 q.bytes)) q.bytes info))
      there
    ∙ ap (λ (g : CompressionFlags). ids (compressed_info secs g q.bytes info))
        (byte_flags-ip_flags c p l small)
    ∙ ap (λ (b : List ℕ). ids (compressed_info secs f b info)) shape
    ∙ info_at secs f (front ++ rest) info lv (omega arith)
    ∙ ap (λ (i : ℕ). found i (net32 (dport_at f + 2) (front ++ rest))) port
    ∙ ap (λ (i : ℕ). found (net16 36 p.bytes) i) seqno

abbrev offset_if : Bool → Option ℕ
offset_if t = if t then some 42 else none

-- `getMGENHdr` finds the header behind the UDP header.
found_at :
    (p : Packet) (b : Bool)
    → mgen_passes p (good_mgen p.payload_size p.bytes (if b then none else some 42)) ≡ true
    → good_mgen p.payload_size p.bytes (if b then none else some 42) ≡ some 42
found_at p true h = absurd (ground arith)
found_at p false h =
    kept_if (net16 42 p.bytes == p.payload_size && (byte 44 p.bytes == 2 || byte 44 p.bytes == 4)) h
  where
    kept_if : (t : Bool) → mgen_passes p (offset_if t) ≡ true → offset_if t ≡ some 42
    kept_if true e = refl
    kept_if false e = absurd (ground arith)

get_mgen_hdr-at : (p : Packet) → IsUdp p → is_mgen p ≡ true → get_mgen_hdr p ≡ some 42
get_mgen_hdr-at p u h =
    let e = get_mgen_hdr-udp p u in
    e ∙ found_at p (ltb (length p.bytes) 62) (ap (mgen_passes p) (sym e) ∙ h)

plain-ids :
    (v secs : ℕ) (p : Packet) (info : MgenInfo)
    → IsUdp p
    → is_mgen p ≡ true
    → p.compressed ≡ false
    → IsMgen v p
    → ids (init_mgen_info secs p info) ≡ found (net16 36 p.bytes) (net32 50 p.bytes)
unfolding init_mgen_info get_mgen_hdr
plain-ids v secs p info u h n g =
    let small : net32 46 p.bytes % 65536 ≡ net16 36 p.bytes =
      omega (arith, g.flow, net16-lt 36 p.bytes u.sound.bytes_small) in
    rw (n, get_mgen_hdr-at p u h)
      (ap (λ (i : ℕ). (some i, some (net32 46 p.bytes), some (net32 50 p.bytes))) small
        ∙ ap (λ (i : ℕ). (some (net16 36 p.bytes), some i, some (net32 50 p.bytes))) g.flow)

form_ids :
    (c : PacketCompressor) (p : Packet) (secs : ℕ) (info : MgenInfo)
    → IsUdp p
    → is_mgen p ≡ true
    → p.compressed ≡ false
    → Form c p
    → then_read (compress c p) (λ q. some (ids (init_mgen_info secs q info)))
      ≡ some (ids (init_mgen_info secs p info))
form_ids c p secs info u h n (plain v g e) = rw e (
    ap some (
      packed-ids c p 4 secs (slice 54 8 p.bytes) [] 46 (p.data_len - 94) info (omega arith) refl
      ∙ sym (plain-ids 2 secs p info u h n g)))
form_ids c p secs info u h n (darpa v g e) = rw e (
    ap some (
      packed-ids c p 5 secs (slice 58 8 p.bytes) [] 51 (p.data_len - 99) info (omega arith) refl
      ∙ sym (plain-ids 4 secs p info u h n g)))

-- For a packet that is not yet compressed, whose bytes and lengths are in range, whose Ethernet, IP,
-- UDP and MGEN headers all pass and whose IP and UDP checksums are not 0xffff, `initMGENInfo` finds
-- the flow, as a 16-bit and as a 32-bit number, and the sequence number in the compressed packet that
-- it finds in the packet itself.
pub init_mgen_info-compress :
    (c : PacketCompressor) (p : Packet) (secs : ℕ) (info : MgenInfo)
    → IsUdp p
    → is_mgen p ≡ true
    → p.compressed ≡ false
    → then_read (compress c p) (λ q. some (ids (init_mgen_info secs q info)))
      ≡ some (ids (init_mgen_info secs p info))
init_mgen_info-compress c p secs info u h n = form_ids c p secs info u h n (compress-Form c p u h)
