-- ===== src/Compress/Masks.antt =====
-- `&` with the masks of the compressor, on the binary digits of a number.
use Prim.Native.Nat.{bit_and, digits, bit_and-bitwise, min}
use dragonradio.Prelude.{
  ℕ, zero, suc, ◌+◌, ◌*◌, ◌/◌, ◌%◌, ◌≤◌, ◌<◌, ◌≡◌, refl, ◌∙◌, Bool, true, false, List, [], ◌∷◌,
  ◌++◌, arith, replicate,
}

abbrev digit : Bool → ℕ
digit true = 1
digit false = 0

-- The number with the digits of a list, lowest first, and the digits of a number that it selects.
abbrev mask_of : List Bool → ℕ
mask_of [] = 0
mask_of (b ∷ bs) = 2 * mask_of bs + digit b

abbrev select : List Bool → ℕ → ℕ
select [] a = 0
select (true ∷ bs) a = 2 * select bs (a / 2) + a % 2
select (false ∷ bs) a = 2 * select bs (a / 2)

select-zero : (bs : List Bool) → select bs 0 ≡ 0
select-zero [] = refl
select-zero (true ∷ bs) = omega (arith, select-zero bs)
select-zero (false ∷ bs) = omega (arith, select-zero bs)

none_selected : (n a : ℕ) → digits (λ b. zero) min n a 0 ≡ 0
none_selected zero a = refl
none_selected (suc n) zero = refl
none_selected (suc n) (suc a) = omega (arith, none_selected n (suc a / 2))

digits-mask_of :
    (n a : ℕ) (bs : List Bool) → a ≤ n → digits (λ b. zero) min n a (mask_of bs) ≡ select bs a
digits-mask_of n a [] h = none_selected n a
digits-mask_of zero zero (b ∷ bs) h = omega (arith, select-zero (b ∷ bs))
digits-mask_of zero (suc a) (b ∷ bs) h = absurd (omega arith)
digits-mask_of (suc n) zero (b ∷ bs) h = omega (arith, select-zero (b ∷ bs))
digits-mask_of (suc n) (suc a) (true ∷ bs) h =
    let half : (2 * mask_of bs + 1) / 2 ≡ mask_of bs = omega arith in
    rw half (omega (arith, digits-mask_of n (suc a / 2) bs (omega arith)))
digits-mask_of (suc n) (suc a) (false ∷ bs) h =
    let half : (2 * mask_of bs + 0) / 2 ≡ mask_of bs = omega arith in
    rw half (omega (arith, digits-mask_of n (suc a / 2) bs (omega arith)))

and-mask_of : (a : ℕ) (bs : List Bool) → bit_and a (mask_of bs) ≡ select bs a
and-mask_of a bs = bit_and-bitwise a (mask_of bs) ∙ digits-mask_of a a bs (omega arith)

-- All the digits of a number.
abbrev power : ℕ → ℕ
power zero = 1
power (suc k) = 2 * power k

select_all : (k a : ℕ) → a < power k → select (replicate k true) a ≡ a
select_all zero a h = omega arith
select_all (suc k) a h = omega (arith, select_all k (a / 2) (omega arith))

abbrev prefix : ℕ → ℕ → List Bool
prefix low high = replicate low false ++ replicate high true

pub and-low_byte : (a : ℕ) → bit_and a 0xff ≡ a % 256
and-low_byte a = and-mask_of a (replicate 8 true) ∙ omega arith

pub and-prefix24 : (a : ℕ) → a < 4294967296 → bit_and a 0xffffff00 ≡ a / 256 * 256
and-prefix24 a h =
    and-mask_of a (prefix 8 24)
    ∙ omega (arith, select_all 24 (a / 2 / 2 / 2 / 2 / 2 / 2 / 2 / 2) (omega arith))

pub and-prefix16 : (a : ℕ) → a < 4294967296 → bit_and a 0xffff0000 ≡ a / 65536 * 65536
and-prefix16 a h =
    let top = a / 2 / 2 / 2 / 2 / 2 / 2 / 2 / 2 / 2 / 2 / 2 / 2 / 2 / 2 / 2 / 2 in
    and-mask_of a (prefix 16 16) ∙ omega (arith, select_all 16 top (omega arith))
