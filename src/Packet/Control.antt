-- ===== src/Packet/Control.antt =====
-- The control messages inside a packet: `Packet::iterator`, `getControlLen`, `setControlLen`,
-- `appendControl` and `removeLastControl` of src/Packet.cc, with `ctrlsize`, `integrityIntact` and
-- `clearControl` of src/Packet.hh. A packet's bytes are a list; numbers of more than one byte stand
-- in little-endian order, and a `double` as its bit pattern. The asserts of `getControlLen` are not
-- evaluated. A read past the end, which C++ leaves undefined, finds nothing here.
pub mod Message
pub mod Area
pub mod Append
pub mod Visit
pub mod Endless
mod Tests
use dragonradio.Prelude.{
  ℕ, zero, suc, ◌+◌, ◌-◌, ◌*◌, ◌/◌, ◌%◌, min, Bool, true, false, not, ◌||◌, Option, none, some,
  List, [], ◌∷◌, ◌++◌, if◌then◌else◌, ◌==◌, ltb, length, get_or, take, drop, replicate,
}
use dragonradio.Packet.{
  ControlMsg, Time, hello, timestamp, timestamp_echo, receiver_stats, nak, selective_ack, set_unack,
}

-- The flag `has_control` and the contents of the buffer.
pub record Packet : Type 0 where
  pub has_control : Bool
  pub bytes : List ℕ

-- `memcpy` of a number of `n` bytes to and from a buffer.
abbrev pub le_bytes : ℕ → ℕ → List ℕ
le_bytes zero v = []
le_bytes (suc n) v = v % 256 ∷ le_bytes n (v / 256)

abbrev pub le_value : List ℕ → ℕ
le_value [] = 0
le_value (b ∷ bs) = b + 256 * le_value bs

abbrev pub field : ℕ → ℕ → List ℕ → ℕ
field off n bs = le_value (take n (drop off bs))

-- `ctrlsize`, 0 for a type that the enumeration does not have.
abbrev pub ctrlsize : ℕ → ℕ
ctrlsize ty =
    if ty == 0
    then 2
    else if ty == 1
    then 17
    else if ty == 2
    then 34
    else if ty == 3
    then 17
    else if ty == 4
    then 3
    else if ty == 5
    then 5
    else if ty == 6
    then 3
    else 0

abbrev pub time_bytes : Time → List ℕ
time_bytes t = le_bytes 8 t.secs ++ le_bytes 8 t.frac_secs

abbrev pub bool_byte : Bool → ℕ
bool_byte true = 1
bool_byte false = 0

-- The packed `struct ControlMsg` up to the end of the selected member: the message of each `append`
-- function.
abbrev pub encode : ControlMsg → List ℕ
encode (hello g) = 0 ∷ bool_byte g ∷ []
encode (timestamp t) = 1 ∷ time_bytes t
encode (timestamp_echo n s r) = 2 ∷ n ∷ time_bytes s ++ time_bytes r
encode (receiver_stats e r) = 3 ∷ le_bytes 8 e ++ le_bytes 8 r
encode (nak s) = 4 ∷ le_bytes 2 s
encode (selective_ack b e) = 5 ∷ le_bytes 2 b ++ le_bytes 2 e
encode (set_unack u) = 6 ∷ le_bytes 2 u

abbrev pub time_at : ℕ → List ℕ → Time
time_at off bs = record { secs = field off 8 bs; frac_secs = field (off + 8) 8 bs }

-- The member of the union that a message's type selects.
abbrev pub decode_as : ℕ → List ℕ → Option ControlMsg
decode_as ty bs =
    if ty == 0
    then some (hello (not (field 1 1 bs == 0)))
    else if ty == 1
    then some (timestamp (time_at 1 bs))
    else if ty == 2
    then some (timestamp_echo (field 1 1 bs) (time_at 2 bs) (time_at 18 bs))
    else if ty == 3
    then some (receiver_stats (field 1 8 bs) (field 9 8 bs))
    else if ty == 4
    then some (nak (field 1 2 bs))
    else if ty == 5
    then some (selective_ack (field 1 2 bs) (field 3 2 bs))
    else if ty == 6
    then some (set_unack (field 1 2 bs))
    else none

abbrev pub decode : List ℕ → Option ControlMsg
decode bs = decode_as (get_or bs 0 0) bs

-- `operator ++` at `ctrl_len_` and `ctrl_ptr_`: the message that it copies and where it stands then,
-- or nothing where it becomes `end()`.
abbrev pub next : ℕ → List ℕ → Option (List ℕ × ℕ × List ℕ)
next len ptr =
    let n = ctrlsize (get_or ptr 0 0) in
    if ltb len 1 then none else if ltb len n then none else some (take n ptr, len - n, drop n ptr)

-- The messages of a loop from the iterator to `end()`; nothing if that takes more than the fuel.
abbrev pub visit : ℕ → ℕ → List ℕ → Option (List (List ℕ))
visit zero len ptr = none
visit (suc f) len ptr = elim (next len ptr) [
  | none ↦ some []
  | some (m, len', ptr') ↦ elim (visit f len' ptr') [ none ↦ none | some ms ↦ some (m ∷ ms) ]
]

-- `sizeof(ExtendedHeader)`, and `ehdr().data_len`, which stands at its end.
abbrev pub ehdr_size : ℕ
ehdr_size = 6

abbrev pub data_len : List ℕ → ℕ
data_len bs = get_or bs 4 0 + 256 * get_or bs 5 0

-- Where the control information begins.
abbrev pub control_at : List ℕ → ℕ
control_at bs = ehdr_size + data_len bs

-- `begin()`: the constructor of the iterator up to its first `++`.
unfoldable pub begin : Packet → ℕ × List ℕ
begin p =
    let off = control_at p.bytes in
    if not p.has_control || ltb (length p.bytes) (off + 2)
    then (0, [])
    else (min (field off 2 p.bytes) ((length p.bytes - off) % 65536), drop (off + 2) p.bytes)

-- `for (auto it = pkt.begin(); it != pkt.end(); ++it)`
unfoldable pub messages : ℕ → Packet → Option (List (List ℕ))
unfolding begin
messages fuel p = let (len, ptr) = begin p in visit fuel len ptr

unfoldable pub get_control_len : Packet → ℕ
get_control_len p = if p.has_control then field (control_at p.bytes) 2 p.bytes else 0

-- `resize`; the bytes that it adds are zero here and unspecified in C++.
abbrev pub resize : ℕ → List ℕ → List ℕ
resize n bs = take n (bs ++ replicate (n - length bs) 0)

-- `memcpy` to an offset of the buffer.
abbrev pub write_at : ℕ → List ℕ → List ℕ → List ℕ
write_at off v bs = take off bs ++ (v ++ drop (off + length v) bs)

unfoldable pub set_control_len : ℕ → Packet → Packet
set_control_len n p =
    let bs = if p.has_control then p.bytes else resize (length p.bytes + 2) p.bytes in
    record { has_control = true; bytes = write_at (control_at bs) (le_bytes 2 (n % 65536)) bs }

-- The last two steps of `appendControl`, for a message behind `ctrl_len` bytes of messages.
abbrev pub add_message : ControlMsg → ℕ → Packet → Packet
add_message m ctrl_len p =
    let bs = resize (length p.bytes + length (encode m)) p.bytes in
    record p { bytes = write_at (control_at bs + 2 + ctrl_len) (encode m) bs }

unfoldable pub append_control : ControlMsg → Packet → Packet
append_control m p =
    add_message m (get_control_len p) (set_control_len (get_control_len p + length (encode m)) p)

-- The last step of `removeLastControl`.
abbrev pub shorten : ℕ → Packet → Packet
shorten n p = record p { bytes = resize (length p.bytes - n) p.bytes }

unfoldable pub remove_last_control : ℕ → Packet → Packet
remove_last_control ty p =
    shorten (ctrlsize ty) (set_control_len (get_control_len p + 65536 - ctrlsize ty) p)

unfoldable pub clear_control : Packet → Packet
clear_control p = record { has_control = false; bytes = resize (control_at p.bytes) p.bytes }

unfoldable pub integrity_intact : Packet → Bool
integrity_intact p =
    let size = length p.bytes in
    let off = control_at p.bytes in
    if ltb size ehdr_size
    then false
    else if p.has_control
    then (if ltb size (off + 2) then false else size == off + 2 + get_control_len p)
    else size == off
