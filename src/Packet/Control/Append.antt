-- ===== src/Packet/Control/Append.antt =====
-- Appending control messages to a packet and reading them back.
use mathlib.Core.List.{append-nil, append_assoc}
use dragonradio.Prelude.{
  ℕ, ◌+◌, ◌-◌, ◌<◌, ◌≡◌, refl, sym, ◌∙◌, ap, true, List, [], ◌∷◌, ◌++◌, arith, length, get_or,
  replicate, length-append, length-replicate,
}
use dragonradio.Packet.{ControlMsg}
use dragonradio.Packet.Control.{
  Packet, le_bytes, encode, control_at, get_control_len, resize, write_at, add_message, shorten,
  set_control_len, append_control, remove_last_control,
}
use dragonradio.Packet.Control.Message.{ctrlsize-encode}
use dragonradio.Packet.Control.Area.{
  plain, raw, IsFront, at-append, get-raw, set-raw, set-plain, resize_grow, resize_shrink,
  write_end, append_assoc_of,
}

fill :
    (front a : List ℕ) (m : ControlMsg) (k v : ℕ)
    → IsFront front
    → length a ≡ v
    → add_message m v (raw front k a) ≡ raw front k (a ++ encode m)
fill front a m k v f h =
    let e = encode m in
    let w = le_bytes 2 k in
    let at : control_at ((front ++ (w ++ a)) ++ replicate (length e) 0) ≡ length front =
      ap control_at (append_assoc front (w ++ a) (replicate (length e) 0))
      ∙ at-append front ((w ++ a) ++ replicate (length e) 0) f in
    ap (λ (t : List ℕ). record { has_control = true; bytes = t })
      (ap (λ (t : List ℕ). write_at (control_at t + 2 + v) e t)
          (resize_grow (length e) (front ++ (w ++ a)))
        ∙ ap (λ (t : ℕ). write_at (t + 2 + v) e ((front ++ (w ++ a)) ++ replicate (length e) 0)) at
        ∙ write_end front w a (replicate (length e) 0) e (length front + 2 + v) (omega (arith, h))
            (length-replicate (length e) 0))

append-raw :
    (front a : List ℕ) (m : ControlMsg) (v : ℕ)
    → IsFront front
    → length a ≡ v
    → v + length (encode m) < 65536
    → append_control m (raw front v a) ≡ raw front (v + length (encode m)) (a ++ encode m)
unfolding append_control
append-raw front a m v f h k =
    ap (λ (t : ℕ). add_message m t (set_control_len (t + length (encode m)) (raw front v a)))
      (get-raw front a v f (omega (arith, k)))
    ∙ ap (add_message m v)
        (set-raw front a v (v + length (encode m)) (v + length (encode m)) f (omega (arith, k)))
    ∙ fill front a m (v + length (encode m)) v f h

append-plain :
    (front : List ℕ) (m : ControlMsg) (n : ℕ)
    → IsFront front
    → 0 + length (encode m) ≡ n
    → n < 65536
    → append_control m (plain front) ≡ raw front n (encode m)
unfolding append_control get_control_len
append-plain front m n f e k =
    ap (λ (t : ℕ). add_message m 0 (set_control_len t (plain front))) e
    ∙ ap (add_message m 0) (set-plain front n f k)
    ∙ fill front [] m n 0 f refl

-- The bytes of several messages.
abbrev pub area : List ControlMsg → List ℕ
area [] = []
area (m ∷ ms) = encode m ++ area ms

-- `appendControl` of each message, first to last.
abbrev pub append_all : List ControlMsg → Packet → Packet
append_all [] p = p
append_all (m ∷ ms) p = append_all ms (append_control m p)

all-raw :
    (ms : List ControlMsg) (front a : List ℕ) (v n : ℕ)
    → IsFront front
    → length a ≡ v
    → v + length (area ms) ≡ n
    → n < 65536
    → append_all ms (raw front v a) ≡ raw front n (a ++ area ms)
all-raw [] front a v n f h e k =
    ap (λ (t : ℕ). raw front t a) (omega (arith, e)) ∙ ap (raw front n) (sym (append-nil a))
all-raw (m ∷ ms) front a v n f h e k =
    let j : length (area (m ∷ ms)) ≡ length (encode m) + length (area ms) =
      length-append (encode m) (area ms) in
    ap (append_all ms) (append-raw front a m v f h (omega (arith, e, k, j)))
    ∙ all-raw ms front (a ++ encode m) (v + length (encode m)) n f
        (omega (arith, h, length-append a (encode m))) (omega (arith, e, j)) k
    ∙ ap (raw front n) (append_assoc a (encode m) (area ms))

-- Appending messages to a packet without control information that holds just its header and data
-- lays out their length and the messages behind the data.
pub append_all-plain :
    (front : List ℕ) (m : ControlMsg) (ms : List ControlMsg)
    → IsFront front
    → length (area (m ∷ ms)) < 65536
    → append_all (m ∷ ms) (plain front) ≡ raw front (length (area (m ∷ ms))) (area (m ∷ ms))
append_all-plain front m ms f k =
    let j : length (area (m ∷ ms)) ≡ length (encode m) + length (area ms) =
      length-append (encode m) (area ms) in
    ap (append_all ms)
      (append-plain front m (length (encode m)) f (omega arith) (omega (arith, k, j)))
    ∙ all-raw ms front (encode m) (length (encode m)) (length (area (m ∷ ms))) f refl (sym j) k

shorten-raw :
    (front a e : List ℕ) (k : ℕ) → shorten (length e) (raw front k (a ++ e)) ≡ raw front k a
shorten-raw front a e k =
    let w = le_bytes 2 k in
    let size : length ((front ++ (w ++ a)) ++ e) ≡ length (front ++ (w ++ a)) + length e =
      length-append (front ++ (w ++ a)) e in
    ap (λ (t : List ℕ). record { has_control = true; bytes = t })
      (ap (λ (t : List ℕ). resize (length t - length e) t) (sym (append_assoc_of front w a e))
        ∙ resize_shrink (length ((front ++ (w ++ a)) ++ e) - length e) (front ++ (w ++ a)) e
            (omega (arith, size)))

-- `removeLastControl` with the type of the last message of a packet takes that message away again, if
-- the packet's messages take less than 65536 bytes.
pub remove_last_control-raw :
    (front a : List ℕ) (m : ControlMsg)
    → IsFront front
    → length (a ++ encode m) < 65536
    → remove_last_control
        (get_or (encode m) 0 0)
        (raw front (length (a ++ encode m)) (a ++ encode m))
      ≡ raw front (length a) a
unfolding remove_last_control
remove_last_control-raw front a m f k =
    let n = length (encode m) in
    let total = length (a ++ encode m) in
    let size : total ≡ length a + n = length-append a (encode m) in
    ap
      (λ (t : ℕ). shorten t (
        set_control_len (get_control_len (raw front total (a ++ encode m)) + 65536 - t)
          (raw front total (a ++ encode m))))
      (ctrlsize-encode m)
    ∙ ap (λ (t : ℕ). shorten n (set_control_len (t + 65536 - n) (raw front total (a ++ encode m))))
        (get-raw front (a ++ encode m) total f k)
    ∙ ap (shorten n) (
        set-raw front (a ++ encode m) total (total + 65536 - n) (length a) f
          (omega (arith, size, k)))
    ∙ shorten-raw front a (encode m) (length a)
