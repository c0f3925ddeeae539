-- ===== src/Compress/Bytes.antt =====
-- Lists of bytes, and the fields that are read from them and written back.
use dragonradio.Prelude.{
  ℕ, zero, suc, ◌+◌, ◌≤◌, ◌<◌, ◌≡◌, refl, ◌∙◌, ap, Bool, true, ◌&&◌, List, [], ◌∷◌, ◌++◌, arith,
  ltb, length, length-drop, drop,
}
use dragonradio.Packet.Control.Area.{drop_add}
use dragonradio.Compress.{byte, slice, net16, net32, to_net16, to_net32, same_bytes}

-- Every element is a byte; what stands behind the end counts as 0.
abbrev pub IsBytes : List ℕ → Type 0
IsBytes bs = (i : ℕ) → byte i bs < 256

abbrev pub all_bytes : List ℕ → Bool
all_bytes [] = true
all_bytes (b ∷ bs) = ltb b 256 && all_bytes bs

pub all_bytes-IsBytes : (bs : List ℕ) → all_bytes bs ≡ true → IsBytes bs
all_bytes-IsBytes [] h i = omega arith
all_bytes-IsBytes (b ∷ bs) h zero = ground arith
all_bytes-IsBytes (b ∷ bs) h (suc i) = all_bytes-IsBytes bs (ground arith) i

pub slice-IsBytes : (i n : ℕ) (bs : List ℕ) → IsBytes bs → IsBytes (slice i n bs)
slice-IsBytes i zero bs h j = omega arith
slice-IsBytes i (suc n) bs h zero = h i
slice-IsBytes i (suc n) bs h (suc j) = slice-IsBytes (suc i) n bs h j

pub drop-IsBytes : (n : ℕ) (bs : List ℕ) → IsBytes bs → IsBytes (drop n bs)
drop-IsBytes zero bs h = h
drop-IsBytes (suc n) [] h = h
drop-IsBytes (suc n) (b ∷ bs) h = drop-IsBytes n bs (λ i. h (suc i))

slice-suc : (i n b : ℕ) (bs : List ℕ) → slice (suc i) n (b ∷ bs) ≡ slice i n bs
slice-suc i zero b bs = refl
slice-suc i (suc n) b bs = ap (◌∷◌ (byte i bs)) (slice-suc (suc i) n b bs)

slice-nil : (i j n : ℕ) → slice i n [] ≡ slice j n []
slice-nil i j zero = refl
slice-nil i j (suc n) = ap (◌∷◌ 0) (slice-nil (suc i) (suc j) n)

-- A part of the list that is left when the front is dropped.
pub slice-drop : (k n : ℕ) (bs : List ℕ) → slice k n bs ≡ slice 0 n (drop k bs)
slice-drop zero n bs = refl
slice-drop (suc k) n [] = slice-nil (suc k) 0 n
slice-drop (suc k) n (b ∷ bs) = slice-suc k n b bs ∙ slice-drop k n bs

-- The part of a list behind a front of `k` elements.
pub slice-append : (k n : ℕ) (a bs : List ℕ) → length a ≡ k → slice k n (a ++ bs) ≡ slice 0 n bs
slice-append zero n [] bs h = refl
slice-append zero n (x ∷ a) bs h = absurd (omega arith)
slice-append (suc k) n [] bs h = absurd (omega arith)
slice-append (suc k) n (x ∷ a) bs h =
    slice-suc k n x (a ++ bs) ∙ slice-append k n a bs (omega arith)

-- A front of `n` bytes and the rest make up the list.
pub slice-append-drop : (n : ℕ) (bs : List ℕ) → n ≤ length bs → slice 0 n bs ++ drop n bs ≡ bs
slice-append-drop zero bs h = refl
slice-append-drop (suc n) [] h = absurd (omega arith)
slice-append-drop (suc n) (b ∷ bs) h =
    ap (λ (t : List ℕ). b ∷ (t ++ drop n bs)) (slice-suc 0 n b bs)
    ∙ ap (◌∷◌ b) (slice-append-drop n bs (omega arith))

pub slice-add :
    (i m n t j : ℕ) (bs : List ℕ)
    → t ≡ m + n
    → j ≡ i + m
    → slice i t bs ≡ slice i m bs ++ slice j n bs
slice-add i zero n t j bs e h =
    ap (λ (k : ℕ). slice k t bs) (omega arith) ∙ ap (λ (k : ℕ). slice j k bs) (omega arith)
slice-add i (suc m) n zero j bs e h = absurd (omega arith)
slice-add i (suc m) n (suc t) j bs e h =
    ap (◌∷◌ (byte i bs)) (slice-add (suc i) m n t j bs (omega arith) (omega arith))

pub length-slice : (i n : ℕ) (bs : List ℕ) → length (slice i n bs) ≡ n
length-slice i zero bs = refl
length-slice i (suc n) bs = ap suc (length-slice (suc i) n bs)

pub cons_eq : {a b : ℕ} {xs ys : List ℕ} → a ≡ b → xs ≡ ys → a ∷ xs ≡ b ∷ ys
cons_eq e h = rw (e, h) refl

pub same_bytes_sound : (xs ys : List ℕ) → same_bytes xs ys ≡ true → xs ≡ ys
same_bytes_sound [] [] h = refl
same_bytes_sound [] (y ∷ ys) h = absurd (ground arith)
same_bytes_sound (x ∷ xs) [] h = absurd (ground arith)
same_bytes_sound (x ∷ xs) (y ∷ ys) h =
    cons_eq (ground arith) (same_bytes_sound xs ys (ground arith))

-- What is written for the number that a field holds is the field.
pub to_net16-net16 :
    (i v : ℕ) (bs : List ℕ) → IsBytes bs → net16 i bs ≡ v → to_net16 v ≡ slice i 2 bs
to_net16-net16 i v bs h e =
    let a = h i in let b = h (suc i) in cons_eq (omega arith) (cons_eq (omega arith) refl)

pub to_net32-net32 :
    (i v : ℕ) (bs : List ℕ) → IsBytes bs → net32 i bs ≡ v → to_net32 v ≡ slice i 4 bs
to_net32-net32 i v bs h e =
    let a = h i in
    let b = h (suc i) in
    let c = h (suc (suc i)) in
    let d = h (suc (suc (suc i))) in
    cons_eq (omega arith)
      (cons_eq (omega arith) (cons_eq (omega arith) (cons_eq (omega arith) refl)))

pub net16-lt : (i : ℕ) (bs : List ℕ) → IsBytes bs → net16 i bs < 65536
net16-lt i bs h = let a = h i in let b = h (suc i) in omega arith

pub net32-lt : (i : ℕ) (bs : List ℕ) → IsBytes bs → net32 i bs < 4294967296
net32-lt i bs h = omega (arith, net16-lt i bs h, net16-lt (suc (suc i)) bs h)

-- The front of a list, and what is behind it.
pub slice_front : (n : ℕ) (a bs : List ℕ) → length a ≡ n → slice 0 n (a ++ bs) ≡ a
slice_front zero [] bs h = refl
slice_front zero (x ∷ a) bs h = absurd (omega arith)
slice_front (suc n) [] bs h = absurd (omega arith)
slice_front (suc n) (x ∷ a) bs h =
    ap (◌∷◌ x) (slice-suc 0 n x (a ++ bs) ∙ slice_front n a bs (omega arith))

-- A part of the list and everything behind it.
pub slice-drop_at :
    (k n m : ℕ) (bs : List ℕ) → m ≡ k + n → m ≤ length bs → slice k n bs ++ drop m bs ≡ drop k bs
slice-drop_at k n m bs e h =
    let fits : n ≤ length (drop k bs) = omega (arith, length-drop k bs) in
    ap (λ (t : List ℕ). t ++ drop m bs) (slice-drop k n bs)
    ∙ ap (λ (t : List ℕ). slice 0 n (drop k bs) ++ t) (drop_add k n m bs e)
    ∙ slice-append-drop n (drop k bs) fits
