-- ===== src/Packet/Control/Area.antt =====
-- The control area of a packet: after the data stand the length of the control information and the
-- messages. The operations are computed on packets of this form.
use mathlib.Core.List.{append-nil, append_assoc}
use dragonradio.Prelude.{
  get_or-append, ℕ, zero, suc, ◌+◌, ◌-◌, ◌*◌, ◌/◌, ◌%◌, ◌<◌, ◌≡◌, refl, sym, ◌∙◌, ap, true, false,
  List, [], ◌∷◌, ◌++◌, arith, length, take, drop, replicate, length-append, take-append,
  drop-append, length-replicate,
}
use dragonradio.Packet.Control.{
  Packet, le_bytes, le_value, field, control_at, get_control_len, resize, write_at, set_control_len,
}

-- A packet without control information, and one with the length `v` and the messages `a`.
abbrev pub plain : List ℕ → Packet
plain front = record { has_control = false; bytes = front }

abbrev pub raw : List ℕ → ℕ → List ℕ → Packet
raw front v a = record { has_control = true; bytes = front ++ (le_bytes 2 v ++ a) }

-- The extended header and the data: as many bytes as the header says.
abbrev pub IsFront : List ℕ → Type 0
IsFront front = length front ≡ control_at front

-- What follows the front does not change what the header says.
pub at-append : (front r : List ℕ) → IsFront front → control_at (front ++ r) ≡ length front
at-append front r h =
    rw (get_or-append front r 4 0 (omega (arith, h)), get_or-append front r 5 0 (omega (arith, h)))
      (sym h)

word : (v : ℕ) → v < 65536 → v % 256 + 256 * (v / 256 % 256 + 256 * 0) ≡ v
word v h = omega arith

pub field_raw :
    (front a : List ℕ) (v : ℕ)
    → v < 65536
    → field (length front) 2 (front ++ (le_bytes 2 v ++ a)) ≡ v
field_raw front a v h =
    ap (λ (t : List ℕ). le_value (take 2 t))
      (drop-append (length front) front (le_bytes 2 v ++ a) refl)
    ∙ word v h

take_all : (xs : List ℕ) (n : ℕ) → length xs ≡ n → take n xs ≡ xs
take_all [] zero h = refl
take_all [] (suc n) h = refl
take_all (x ∷ xs) zero h = absurd (omega (arith, h))
take_all (x ∷ xs) (suc n) h = ap (◌∷◌ x) (take_all xs n (omega (arith, h)))

pub resize_grow : (k : ℕ) (bs : List ℕ) → resize (length bs + k) bs ≡ bs ++ replicate k 0
resize_grow k bs =
    let e : length bs + k - length bs ≡ k = omega arith in
    rw e (
      take_all (bs ++ replicate k 0) (length bs + k)
        (length-append bs (replicate k 0) ∙ ap (λ (t : ℕ). length bs + t) (length-replicate k 0)))

pub resize_shrink : (n : ℕ) (a b : List ℕ) → length a ≡ n → resize n (a ++ b) ≡ a
resize_shrink n a b h =
    rw (append_assoc a b (replicate (n - length (a ++ b)) 0))
      (take-append n a (b ++ replicate (n - length (a ++ b)) 0) h)

pub drop_add : (m n k : ℕ) (xs : List ℕ) → k ≡ m + n → drop k xs ≡ drop n (drop m xs)
drop_add zero n k xs h = ap (λ (t : ℕ). drop t xs) (omega (arith, h))
drop_add (suc m) n zero xs h = absurd (omega (arith, h))
drop_add (suc m) zero (suc k) [] h = refl
drop_add (suc m) (suc n) (suc k) [] h = refl
drop_add (suc m) n (suc k) (x ∷ xs) h = drop_add m n k xs (omega (arith, h))

pub write_mid :
    (off : ℕ) (v a b c : List ℕ)
    → length a ≡ off
    → length b ≡ length v
    → write_at off v (a ++ (b ++ c)) ≡ a ++ (v ++ c)
write_mid off v a b c h k =
    let rest : drop (off + length v) (a ++ (b ++ c)) ≡ c =
      drop_add off (length v) (off + length v) (a ++ (b ++ c)) refl
      ∙ ap (drop (length v)) (drop-append off a (b ++ c) h)
      ∙ drop-append (length v) b c k in
    rw (take-append off a (b ++ c) h, rest, write_at) refl

-- The operations on a packet of that form.
pub get-raw :
    (front a : List ℕ) (v : ℕ) → IsFront front → v < 65536 → get_control_len (raw front v a) ≡ v
unfolding get_control_len
get-raw front a v f h =
    ap (λ (t : ℕ). field t 2 (front ++ (le_bytes 2 v ++ a))) (at-append front (le_bytes 2 v ++ a) f)
    ∙ field_raw front a v h

pub set-raw :
    (front a : List ℕ) (v n k : ℕ)
    → IsFront front
    → n % 65536 ≡ k
    → set_control_len n (raw front v a) ≡ raw front k a
unfolding set_control_len
set-raw front a v n k f h =
    ap (λ (t : List ℕ). record { has_control = true; bytes = t })
      (rw (h, at-append front (le_bytes 2 v ++ a) f)
        (write_mid (length front) (le_bytes 2 k) front (le_bytes 2 v) a refl refl))

pub set-plain :
    (front : List ℕ) (n : ℕ)
    → IsFront front
    → n < 65536
    → set_control_len n (plain front) ≡ raw front n []
unfolding set_control_len
set-plain front n f h =
    let small : n % 65536 ≡ n = omega arith in
    ap (λ (t : List ℕ). record { has_control = true; bytes = t })
      (rw (small, resize_grow 2 front, at-append front (0 ∷ 0 ∷ []) f)
        (write_mid (length front) (le_bytes 2 n) front (0 ∷ 0 ∷ []) [] refl refl))

pub append_assoc_of : (a b c d : List ℕ) → (a ++ (b ++ c)) ++ d ≡ a ++ (b ++ (c ++ d))
append_assoc_of a b c d =
    append_assoc a (b ++ c) d ∙ ap (λ (t : List ℕ). a ++ t) (append_assoc b c d)

-- `memcpy` of the message into the room that `resize` has made behind the messages.
pub write_end :
    (front w a z m : List ℕ) (off : ℕ)
    → off ≡ length front + length w + length a
    → length z ≡ length m
    → write_at off m ((front ++ (w ++ a)) ++ z) ≡ front ++ (w ++ (a ++ m))
write_end front w a z m off h k =
    let at : length (front ++ (w ++ a)) ≡ off =
      omega (arith, h, length-append front (w ++ a), length-append w a) in
    ap (λ (t : List ℕ). write_at off m ((front ++ (w ++ a)) ++ t)) (sym (append-nil z))
    ∙ write_mid off m (front ++ (w ++ a)) z [] at k
    ∙ ap (λ (t : List ℕ). (front ++ (w ++ a)) ++ t) (append-nil m)
    ∙ append_assoc_of front w a m
