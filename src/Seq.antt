-- ===== src/Seq.antt =====
-- src/Seq.hh: 16-bit sequence numbers that wrap, and their circular order.
pub mod Order
mod Tests
use dragonradio.Prelude.{ℕ, ◌+◌, ◌-◌, ◌%◌, Bool, not, ◌&&◌, ◌||◌, leb, ◌==◌}

-- `struct Seq`, by the value of its one field `seq_`, a `uint16_t`: a number below 65536.
abbrev pub Seq : Type 0
Seq = ℕ

abbrev pub seq_mod : ℕ
seq_mod = 65536

abbrev pub seq_max : Seq
seq_max = 65535

-- `static_cast<uint16_t>(seq_ - other.seq_)`
abbrev pub diff : Seq → Seq → ℕ
diff a b = (a + 65536 - b) % 65536

-- The sign of a 16-bit pattern read as `int16_t`.
abbrev pub is_neg : ℕ → Bool
is_neg w = leb 32768 w

unfoldable pub lt : Seq → Seq → Bool
lt a b = is_neg (diff a b)

unfoldable pub le : Seq → Seq → Bool
le a b = is_neg (diff a b) || diff a b == 0

unfoldable pub gt : Seq → Seq → Bool
gt a b = not (is_neg (diff a b)) && not (diff a b == 0)

unfoldable pub ge : Seq → Seq → Bool
ge a b = not (is_neg (diff a b))

-- `operator +(int)` and `operator -(int)` at an argument that is not negative.
abbrev pub add : Seq → ℕ → Seq
add a n = (a + n) % 65536

abbrev pub sub : Seq → ℕ → Seq
sub a n = (a + 65536 - n % 65536) % 65536

-- `operator ++` and `operator --`; the code discards the result of the postfix forms.
abbrev pub incr : Seq → Seq
incr a = (a + 1) % 65536

abbrev pub decr : Seq → Seq
decr a = (a + 65535) % 65536
