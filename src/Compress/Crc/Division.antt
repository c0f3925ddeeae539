-- ===== src/Compress/Crc/Division.antt =====
-- `crc32` against the division by the polynomial 0x04C11DB7, which is 0xEDB88320 reflected.
use Prim.Native.Nat.{bit_and, bit_xor}
use dragonradio.Prelude.{
  ℕ, zero, suc, ◌/◌, ◌%◌, ◌<◌, ◌≡◌, refl, ap, ◌∙◌, Bool, true, ◌&&◌, List, [], ◌∷◌, get_or, length,
  ◌+◌, arith, if◌then◌else◌, ◌==◌, ==_iff,
}
use dragonradio.Compress.Masks.{and-low_byte}
use dragonradio.Compress.Crc.{crc32_table, crc32_xinit, crc32_xorot, crc32_update, crc32}

-- One bit of the division, and `n` bits of it.
abbrev pub shift_bit : ℕ → ℕ
shift_bit r = if r % 2 == 0 then r / 2 else bit_xor (r / 2) 0xedb88320

abbrev pub shift_bits : ℕ → ℕ → ℕ
shift_bits zero r = r
shift_bits (suc n) r = shift_bits n (shift_bit r)

-- The remainder after the bytes: the low byte is shifted out bit by bit.
unfoldable pub remainder : ℕ → List ℕ → ℕ
remainder r [] = r
remainder r (b ∷ bs) = remainder (bit_xor (shift_bits 8 (bit_xor r b % 256)) (r / 256)) bs

and_left : (a b : Bool) → (a && b) ≡ true → a ≡ true
and_left a b h = ground arith

and_right : (a b : Bool) → (a && b) ≡ true → b ≡ true
and_right a b h = ground arith

-- Every entry of a part of the table that begins at `i` is the remainder of its index.
abbrev entries_from : ℕ → List ℕ → Bool
entries_from i [] = true
entries_from i (t ∷ ts) = t == shift_bits 8 i && entries_from (suc i) ts

table_entries : entries_from 0 crc32_table ≡ true
table_entries = refl

entry_of :
    (i j : ℕ) (ts : List ℕ)
    → entries_from i ts ≡ true
    → j < length ts
    → get_or ts j 0 ≡ shift_bits 8 (i + j)
entry_of i j [] e h = absurd (omega arith)
entry_of i zero (t ∷ ts) e h =
    let head = (==_iff t (shift_bits 8 i)).0 (and_left (t == shift_bits 8 i) _ e) in
    head ∙ ap (shift_bits 8) (omega arith)
entry_of i (suc j) (t ∷ ts) e h =
    entry_of (suc i) j ts (and_right (t == shift_bits 8 i) _ e) (omega arith)
    ∙ ap (shift_bits 8) (omega arith)

entry-shift_bits : (i : ℕ) → i < 256 → get_or crc32_table i 0 ≡ shift_bits 8 i
entry-shift_bits i h =
    entry_of 0 i crc32_table table_entries (omega arith) ∙ ap (shift_bits 8) (omega arith)

index : (x : ℕ) → get_or crc32_table (bit_and x 0xff) 0 ≡ shift_bits 8 (x % 256)
index x =
    ap (λ (i : ℕ). get_or crc32_table i 0) (and-low_byte x)
    ∙ entry-shift_bits (x % 256) (omega arith)

update-remainder : (r : ℕ) (bs : List ℕ) → crc32_update r bs ≡ remainder r bs
unfolding crc32_update remainder
update-remainder r [] = refl
update-remainder r (b ∷ bs) =
    ap (λ (t : ℕ). crc32_update (bit_xor t (r / 256)) bs) (index (bit_xor r b))
    ∙ update-remainder (bit_xor (shift_bits 8 (bit_xor r b % 256)) (r / 256)) bs

-- For any bytes, `crc32` with its table of 256 entries is the remainder that shifting the low byte
-- out bit by bit leaves, from the initial value and with the final exclusive or.
pub crc32-remainder : (bs : List ℕ) → crc32 bs ≡ bit_xor (remainder crc32_xinit bs) crc32_xorot
unfolding crc32
crc32-remainder bs = ap (λ (t : ℕ). bit_xor t crc32_xorot) (update-remainder crc32_xinit bs)
