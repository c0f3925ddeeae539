-- ===== src/Compress/RoundTrip/Message.antt =====
-- The round trip of a packet of which the MGEN headers are compressed too, for both versions.
use mathlib.Core.List.{append_assoc}
use dragonradio.Prelude.{
  ℕ, zero, suc, ◌+◌, ◌-◌, ◌*◌, ◌%◌, ◌≤◌, ◌<◌, ◌≡◌, refl, ◌∙◌, ap, false, Option, some, List, [],
  ◌∷◌, ◌++◌, arith, if◌then◌else◌, ◌==◌, ltb, length, length-append, drop, Bool-cases, inl, inr,
}
use dragonradio.Compress.{Packet, byte, slice, flags_byte, sub_size}
use dragonradio.Compress.Bytes.{length-slice}
use dragonradio.Compress.Pack.{PacketCompressor, is_internal, is_external}
use dragonradio.Compress.Unpack.{
  DecompressionBuffer, consed, read, then_read, unpack, unpack_rest, unflush, fix_up, fix_mgen,
  fix_udp, fix_ip, decompress,
}
use dragonradio.Compress.RoundTrip.{restored}
use dragonradio.Compress.RoundTrip.Header.{ip_out, ttl_out, addr_out}
use dragonradio.Compress.RoundTrip.Addresses.{IsMasked}
use dragonradio.Compress.RoundTrip.Network.{ip_flags, decompress-flush, length_restored, cached}
use dragonradio.Compress.RoundTrip.Mgen.{
  IsMgen, mgen_tail, mgen_tail-slice, darpa_tail-slice, blank, front, zeros, fix_mgen-blank,
}
use dragonradio.Compress.RoundTrip.Transport.{
  IsUdp, marked, udp_out, udp_buffer, unpack-transport, fix_up-udp,
}

read-append : (n : ℕ) (a bs : List ℕ) → length a ≡ n → read n (a ++ bs) ≡ some (a, bs)
read-append zero [] bs h = refl
read-append zero (x ∷ a) bs h = absurd (omega arith)
read-append (suc n) [] bs h = absurd (omega arith)
read-append (suc n) (x ∷ a) bs h = ap (consed x) (read-append n a bs (omega arith))

sub_size_of : (a b k : ℕ) → a ≡ b + k → sub_size a b ≡ k
sub_size_of a b k h = ground arith

length-ttl_out : (p : Packet) → length (ttl_out p) ≤ 1
length-ttl_out p = ground arith

length-addr_out : (c : PacketCompressor) (p : Packet) → length (addr_out c p) ≤ 8
length-addr_out c p = elim (Bool-cases (is_internal c p)) [
  | inl e ↦ rw e (omega arith)
  | inr e ↦ elim (Bool-cases (is_external c p)) [
    | inl f ↦ rw (e, f) (omega arith)
    | inr f ↦ rw (e, f) (omega arith)
  ]
]

pub length-udp_out : (c : PacketCompressor) (p : Packet) → length (udp_out c p) ≤ 16
length-udp_out c p = omega (
  arith,
  length-append (ip_out c p ++ slice 34 2 p.bytes) (slice 36 2 p.bytes),
  length-append (ip_out c p) (slice 34 2 p.bytes),
  length-append (ttl_out p) (addr_out c p),
  length-ttl_out p,
  length-addr_out c p,
)

-- The buffer with the headers and `pad` behind them.
abbrev padded : PacketCompressor → Packet → ℕ → List ℕ → List ℕ × List ℕ → DecompressionBuffer
padded c p l tail (pad, r) = record {
  flags = ip_flags c p l;
  inp = r;
  out = front p ++ ((0 ∷ 0 ∷ tail) ++ (pad ++ zeros));
}

abbrev repaired : Packet → Option Packet
repaired q = cached (then_read (then_read (fix_mgen q) fix_udp) fix_ip)

-- For the level `l`, the 12 bytes `w` that stand for the `n` bytes `tail`, and `k` bytes of padding.
module _ (c : PacketCompressor) (p : Packet) (l : ℕ) (w tail : List ℕ) (n k : ℕ) where
  abbrev pub kept : List ℕ
  kept = udp_out c p ++ (w ++ slice (44 + n) k p.bytes)

  abbrev pub packed : Packet
  packed = record (marked p) {
    data_len = (p.data_len + (1 + length kept) + 65535 * p.data_len) % 65536;
    bytes = flags_byte (ip_flags c p l) ∷ (kept ++ drop p.data_len p.bytes);
  }

  abbrev MgenStep : Type 0
  MgenStep =
      (r : List ℕ)
      → unpack_rest packed (udp_buffer c p l (w ++ r))
        ≡ then_read (read (sub_size packed.data_len (length packed.bytes - length r)) r)
            (λ x. some (padded c p l tail x))

  abbrev pad : List ℕ
  pad = slice (44 + n) k p.bytes

  abbrev end : List ℕ
  end = drop p.data_len p.bytes

  unpack-message :
      IsMasked c
      → IsUdp p
      → length w ≡ 12
      → p.data_len ≡ 48 + n + k
      → 46 ≤ n
      → ltb l 3 ≡ false
      → MgenStep
      → unpack c packed (record { flags = ip_flags c p l; inp = kept ++ end; out = [] })
        ≡ some (padded c p l tail (pad, end))
  unpack-message m u hw d hn h step =
      let split : kept ++ end ≡ udp_out c p ++ (w ++ (pad ++ end)) =
        append_assoc (udp_out c p) (w ++ pad) end
        ∙ ap (λ (x : List ℕ). udp_out c p ++ x) (append_assoc w pad end) in
      let total : length kept ≡ length (udp_out c p) + 12 + k = omega (
        arith,
        length-append (udp_out c p) (w ++ pad),
        length-append w pad,
        length-slice (44 + n) k p.bytes,
      ) in
      let bound = length-udp_out c p in
      let small = u.sound.len_small in
      let len : packed.data_len ≡ 1 + length kept = omega arith in
      let all : length packed.bytes - length (pad ++ end) ≡ 1 + (length (udp_out c p) + 12) =
        omega
          (arith, length-append kept end, length-append pad end, length-slice (44 + n) k p.bytes) in
      let room : sub_size packed.data_len (length packed.bytes - length (pad ++ end)) ≡ k =
        sub_size_of packed.data_len (length packed.bytes - length (pad ++ end)) k
          (len ∙ omega (arith, all, total)) in
      ap (λ (x : List ℕ). unpack c packed (record { flags = ip_flags c p l; inp = x; out = [] }))
        split
      ∙ unpack-transport c p packed l (w ++ (pad ++ end)) m u refl refl refl h
      ∙ step (pad ++ end)
      ∙ ap (λ (i : ℕ). then_read (read i (pad ++ end)) (λ x. some (padded c p l tail x))) room
      ∙ ap (λ (o : Option (List ℕ × List ℕ)). then_read o (λ x. some (padded c p l tail x)))
          (read-append k pad end (length-slice (44 + n) k p.bytes))

  -- `decompress` on such a packet.
  pub decompress-packed :
      IsMasked c
      → IsUdp p
      → ((v : ℕ) × IsMgen v p)
      → length w ≡ 12
      → tail ≡ slice 44 n p.bytes
      → p.data_len ≡ 48 + n + k
      → 46 ≤ n
      → l < 8
      → ltb l 3 ≡ false
      → ((q : Packet) → fix_up l q ≡ repaired q)
      → MgenStep
      → decompress c packed ≡ some (restored p)
  decompress-packed m u (v, g) hw ht d hn small h repairs step =
      let t = front p ++ ((0 ∷ 0 ∷ tail) ++ (pad ++ zeros)) in
      let bound = length-udp_out c p in
      let fits = u.sound.len_small in
      let total : length kept ≡ length (udp_out c p) + 12 + k = omega (
        arith,
        length-append (udp_out c p) (w ++ pad),
        length-append w pad,
        length-slice (44 + n) k p.bytes,
      ) in
      let size : length tail ≡ n = ap length ht ∙ length-slice 44 n p.bytes in
      let written : length t ≡ p.data_len = omega (
        arith,
        length-append tail (pad ++ zeros),
        length-append pad zeros,
        length-slice (44 + n) k p.bytes,
      ) in
      let gone : length packed.bytes - length end ≡ 1 + length kept =
        omega (arith, length-append kept end) in
      let len : (packed.data_len + length t + 65535 * (length packed.bytes - length end)) % 65536
          ≡ p.data_len =
        ap (λ (i : ℕ). (packed.data_len + i + 65535 * (length packed.bytes - length end)) % 65536)
          written
        ∙ length_restored p.data_len (1 + length kept) p.data_len _ fits gone in
      let place : (tail ++ (pad ++ zeros)) ++ end ≡ tail ++ (pad ++ (zeros ++ end)) =
        append_assoc tail (pad ++ zeros) end
        ∙ ap (λ (x : List ℕ). tail ++ x) (append_assoc pad zeros end) in
      decompress-flush c p l kept end _ small
      ∙ ap
          (λ (o : Option DecompressionBuffer).
            then_read o (λ b. fix_up b.flags.level (unflush packed b)))
          (unpack-message m u hw d hn h step)
      ∙ repairs (unflush packed (padded c p l tail (pad, end)))
      ∙ ap
          (λ (i : ℕ).
            repaired
              (record (blank p ((0 ∷ 0 ∷ (tail ++ (pad ++ zeros)) ++ end))) { data_len = i }))
          len
      ∙ ap (λ (x : List ℕ). repaired (blank p (0 ∷ 0 ∷ x))) place
      ∙ ap (λ (o : Option Packet). cached (then_read (then_read o fix_udp) fix_ip))
          (fix_mgen-blank v p tail n k u.sound g u.proto ht d)
      ∙ fix_up-udp p u

-- The 12 bytes that are kept of the headers of a version.
abbrev pub stamps : ℕ → List ℕ → List ℕ
stamps v bs =
    let seconds = if v == 2 then 54 else 58 in
    slice 50 4 bs ++ slice seconds 4 bs ++ slice (seconds + 4) 4 bs

abbrev pub mgen_packed : PacketCompressor → Packet → Packet
mgen_packed c p = packed c p 4 (stamps 2 p.bytes) (mgen_tail 2 p.bytes) 46 (p.data_len - 94)

abbrev pub darpa_packed : PacketCompressor → Packet → Packet
darpa_packed c p = packed c p 5 (stamps 4 p.bytes) (mgen_tail 4 p.bytes) 51 (p.data_len - 99)

pub room_of : (d a : ℕ) → 42 ≤ d → a ≤ sub_size d 42 → a + 42 ≤ d
room_of d a h e = ground arith

pub decompress-mgen :
    (c : PacketCompressor) (p : Packet)
    → IsMasked c
    → IsUdp p
    → IsMgen 2 p
    → byte 44 p.bytes ≡ 2
    → decompress c (mgen_packed c p) ≡ some (restored p)
decompress-mgen c p m u g v =
    let d : p.data_len ≡ 48 + 46 + (p.data_len - 94) =
      omega (arith, room_of p.data_len 52 u.len_udp g.room) in
    decompress-packed c p 4 (stamps 2 p.bytes) (mgen_tail 2 p.bytes) 46 (p.data_len - 94) m u (2, g)
      refl (mgen_tail-slice p u.sound.bytes_small v g) d (omega arith) (omega arith) refl
      (λ q. refl) (λ r. refl)

pub decompress-darpa :
    (c : PacketCompressor) (p : Packet)
    → IsMasked c
    → IsUdp p
    → IsMgen 4 p
    → byte 44 p.bytes ≡ 4
    → decompress c (darpa_packed c p) ≡ some (restored p)
decompress-darpa c p m u g v =
    let d : p.data_len ≡ 48 + 51 + (p.data_len - 99) =
      omega (arith, room_of p.data_len 57 u.len_udp g.room) in
    decompress-packed c p 5 (stamps 4 p.bytes) (mgen_tail 4 p.bytes) 51 (p.data_len - 99) m u (4, g)
      refl (darpa_tail-slice p u.sound.bytes_small v g) d (omega arith) (omega arith) refl
      (λ q. refl) (λ r. refl)
