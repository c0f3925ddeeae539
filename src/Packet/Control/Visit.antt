-- ===== src/Packet/Control/Visit.antt =====
-- What the iterator over a packet's control messages visits.
use mathlib.Core.List.{append_assoc}
use dragonradio.Prelude.{
  ℕ, suc, ◌+◌, ◌-◌, ◌%◌, ◌≤◌, ◌<◌, min, ◌≡◌, refl, sym, ◌∙◌, ap, true, false, Option, some, List,
  [], ◌∷◌, ◌++◌, map, arith, length, get_or, take, drop, length-append, take-append, drop-append,
  if◌then◌else◌, ltb, ◌==◌,
}
use dragonradio.Packet.{
  ControlMsg, hello, timestamp, timestamp_echo, receiver_stats, nak, selective_ack, set_unack,
}
use dragonradio.Packet.Control.{
  Packet, le_bytes, ctrlsize, encode, next, visit, begin, messages, integrity_intact,
}
use dragonradio.Packet.Control.Message.{ctrlsize-encode}
use dragonradio.Packet.Control.Area.{plain, raw, IsFront, at-append, get-raw, field_raw}
use dragonradio.Packet.Control.Append.{area, append_all, append_all-plain}

head-append : (m : ControlMsg) (r : List ℕ) → get_or (encode m ++ r) 0 0 ≡ get_or (encode m) 0 0
head-append (hello g) r = refl
head-append (timestamp t) r = refl
head-append (timestamp_echo n s t) r = refl
head-append (receiver_stats e t) r = refl
head-append (nak s) r = refl
head-append (selective_ack b e) r = refl
head-append (set_unack u) r = refl

encode_pos : (m : ControlMsg) → 0 < length (encode m)
encode_pos (hello g) = omega arith
encode_pos (timestamp t) = omega arith
encode_pos (timestamp_echo n s t) = omega arith
encode_pos (receiver_stats e t) = omega arith
encode_pos (nak s) = omega arith
encode_pos (selective_ack b e) = omega arith
encode_pos (set_unack u) = omega arith

next_of_size :
    (len n : ℕ) (ptr : List ℕ)
    → ctrlsize (get_or ptr 0 0) ≡ n
    → 0 < n
    → n ≤ len
    → next len ptr ≡ some (take n ptr, len - n, drop n ptr)
next_of_size len n ptr e h0 h1 =
    let a : ltb len 1 ≡ false = ground arith in
    let b : ltb len n ≡ false = ground arith in rw (e, a, b) refl

next-append :
    (m : ControlMsg) (r : List ℕ) (len rest : ℕ)
    → len ≡ length (encode m) + rest
    → next len (encode m ++ r) ≡ some (encode m, rest, r)
next-append m r len rest h =
    let n = length (encode m) in
    next_of_size len n (encode m ++ r) (ap ctrlsize (head-append m r) ∙ ctrlsize-encode m)
      (encode_pos m) (omega (arith, h))
    ∙ ap (λ (t : List ℕ). some (t, len - n, drop n (encode m ++ r)))
        (take-append n (encode m) r refl)
    ∙ ap (λ (t : List ℕ). some (encode m, len - n, t)) (drop-append n (encode m) r refl)
    ∙ ap (λ (t : ℕ). some (encode m, t, r)) (omega (arith, h))

visit-area :
    (ms : List ControlMsg) (len : ℕ)
    → len ≡ length (area ms)
    → visit (suc (length ms)) len (area ms) ≡ some (map encode ms)
visit-area [] len h = rw h refl
visit-area (m ∷ ms) len h =
    let step =
      next-append m (area ms) len (length (area ms)) (h ∙ length-append (encode m) (area ms)) in
    rw (step, visit-area ms (length (area ms)) refl, visit) refl

pub begin-raw :
    (front a : List ℕ) (v : ℕ)
    → IsFront front
    → length a ≡ v
    → v + 2 < 65536
    → begin (raw front v a) ≡ (v, a)
unfolding begin
begin-raw front a v f h k =
    let w = le_bytes 2 v in
    let off = length front in
    let size : length (front ++ (w ++ a)) ≡ off + (2 + v) =
      length-append front (w ++ a) ∙ ap (λ (t : ℕ). off + t) (omega (arith, h)) in
    let enough : ltb (off + (2 + v)) (off + 2) ≡ false = ground arith in
    let least : min v ((off + (2 + v) - off) % 65536) ≡ v = omega (arith, k) in
    let rest : drop (off + 2) (front ++ (w ++ a)) ≡ a =
      ap (drop (off + 2)) (sym (append_assoc front w a))
      ∙ drop-append (off + 2) (front ++ w) a (length-append front w) in
    let at = at-append front (w ++ a) f in
    rw (at, size, enough, field_raw front a v (omega (arith, k)), least, rest) refl

-- Appending messages to a packet that holds just its header and its data and iterating over the
-- result visits exactly these messages, in order, and ends; the messages and their length must take
-- less than 65536 bytes.
pub messages-append_all :
    (front : List ℕ) (m : ControlMsg) (ms : List ControlMsg)
    → IsFront front
    → length (area (m ∷ ms)) + 2 < 65536
    → messages (suc (length (m ∷ ms))) (append_all (m ∷ ms) (plain front))
      ≡ some (map encode (m ∷ ms))
unfolding messages
messages-append_all front m ms f k =
    let v = length (area (m ∷ ms)) in
    let go : ℕ × List ℕ → Option (List (List ℕ)) = λ b. visit (suc (length (m ∷ ms))) b.0 b.1 in
    ap (λ (p : Packet). go (begin p)) (append_all-plain front m ms f (omega (arith, k)))
    ∙ ap go (begin-raw front (area (m ∷ ms)) v f refl k)
    ∙ visit-area (m ∷ ms) v refl

sized :
    (off v : ℕ)
    → 6 ≤ off
    → (if ltb (off + (2 + v)) 6
        then false
        else if ltb (off + (2 + v)) (off + 2)
        then false
        else off + (2 + v) == off + 2 + v)
      ≡ true
sized off v h = ground arith

pub intact :
    (front a : List ℕ) (v : ℕ)
    → IsFront front
    → length a ≡ v
    → v < 65536
    → integrity_intact (raw front v a) ≡ true
unfolding integrity_intact
intact front a v f h k =
    let w = le_bytes 2 v in
    let size : length (front ++ (w ++ a)) ≡ length front + (2 + v) =
      length-append front (w ++ a) ∙ ap (λ (t : ℕ). length front + t) (omega (arith, h)) in
    rw (get-raw front a v f k, at-append front (w ++ a) f, size)
      (sized (length front) v (omega (arith, f)))

-- `integrityIntact` accepts a packet that `appendControl` has built from one that holds just its
-- header and its data, if the messages take less than 65536 bytes.
pub integrity_intact-append_all :
    (front : List ℕ) (m : ControlMsg) (ms : List ControlMsg)
    → IsFront front
    → length (area (m ∷ ms)) < 65536
    → integrity_intact (append_all (m ∷ ms) (plain front)) ≡ true
integrity_intact-append_all front m ms f k =
    ap integrity_intact (append_all-plain front m ms f k)
    ∙ intact front (area (m ∷ ms)) (length (area (m ∷ ms))) f refl k
