-- ===== src/Compress/Checksum.antt =====
-- `ip_checksum_update`, `ip_checksum` and `udp_checksum` of src/net/PacketCompressor.cc. A checksum
-- is the number before the last `htons`.
pub mod Sum
use dragonradio.Prelude.{ℕ, ◌+◌, ◌-◌, ◌*◌, List, [], ◌∷◌, ◌++◌, if◌then◌else◌, ltb}
use dragonradio.Compress.{slice}

-- `acc += word; if (acc > 0xffff) acc -= 0xffff;`
unfoldable pub add_word : ℕ → ℕ → ℕ
add_word acc word = if ltb 65535 (acc + word) then acc + word - 65535 else acc + word

-- The last byte of an odd number of bytes is the first of its word.
abbrev pub ip_checksum_update : ℕ → List ℕ → ℕ
ip_checksum_update acc [] = acc
ip_checksum_update acc (b ∷ []) = add_word acc (256 * b)
ip_checksum_update acc (b ∷ c ∷ bs) = ip_checksum_update (add_word acc (256 * b + c)) bs

-- `~` of a `uint16_t`
abbrev pub complement : ℕ → ℕ
complement v = 65535 - v

abbrev pub ip_checksum : List ℕ → ℕ
ip_checksum bs = complement (ip_checksum_update 0 bs)

-- The pseudo header's sum: the addresses, the protocol and the length of the UDP header, read from
-- the packet's bytes.
abbrev pub pseudo_sum : List ℕ → ℕ
pseudo_sum bs =
    let source = ip_checksum_update 0 (slice 26 4 bs) in
    let dest = ip_checksum_update source (slice 30 4 bs) in
    let proto = ip_checksum_update dest (0 ∷ slice 23 1 bs) in
    ip_checksum_update proto (slice 38 2 bs)

abbrev pub udp_checksum : ℕ → List ℕ → ℕ
udp_checksum udp_len bs = complement (ip_checksum_update (pseudo_sum bs) (slice 34 udp_len bs))
