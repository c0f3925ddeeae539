-- ===== src/Packet/Control/Endless.antt =====
-- What the iterator does at a control message of a type that it does not know: `ctrlsize` is 0.
use dragonradio.Prelude.{
  ℕ, zero, suc, ◌+◌, ◌-◌, ◌<◌, ◌≡◌, refl, ◌∙◌, ap, true, false, Option, none, some, List, arith,
  length, get_or, take, ltb,
}
use dragonradio.Packet.Control.{ctrlsize, next, visit, messages, integrity_intact}
use dragonradio.Packet.Control.Area.{raw, IsFront}
use dragonradio.Packet.Control.Visit.{begin-raw, intact}

ctrlsize_unknown : (ty : ℕ) → 6 < ty → ctrlsize ty ≡ 0
ctrlsize_unknown ty h = ground arith

next_unknown :
    (len : ℕ) (ptr : List ℕ)
    → 0 < len
    → 6 < get_or ptr 0 0
    → next len ptr ≡ some (take 0 ptr, len, ptr)
next_unknown len ptr h k =
    let a : ltb len 1 ≡ false = ground arith in
    let b : ltb len 0 ≡ false = ground arith in
    let c : len - 0 ≡ len = omega arith in rw (ctrlsize_unknown (get_or ptr 0 0) k, a, b, c) refl

visit_unknown : (f len : ℕ) (ptr : List ℕ) → 0 < len → 6 < get_or ptr 0 0 → visit f len ptr ≡ none
visit_unknown zero len ptr h k = refl
visit_unknown (suc f) len ptr h k =
    rw (next_unknown len ptr h k, visit_unknown f len ptr h k, visit) refl

-- A packet whose first control message has a type above 6, with less than 65534 bytes of control
-- messages, passes `integrityIntact`, and a loop over its control messages does not end within any
-- number of rounds.
pub messages_unknown :
    (front a : List ℕ) (f : ℕ)
    → IsFront front
    → length a + 2 < 65536
    → 0 < length a
    → 6 < get_or a 0 0
    → (integrity_intact (raw front (length a) a) ≡ true)
      × (messages f (raw front (length a) a) ≡ none)
unfolding messages
messages_unknown front a f h k n u =
    let go : ℕ × List ℕ → Option (List (List ℕ)) = λ b. visit f b.0 b.1 in
    (
      intact front a (length a) h refl (omega (arith, k)),
      ap go (begin-raw front a (length a) h refl k) ∙ visit_unknown f (length a) a n u,
    )
