-- ===== src/RingBuffer/Tests.antt =====
-- A ring of two items at work.
use native.Mathlib.Nat.{dvd_of_mod-eq-zero}
use dragonradio.Prelude.{ℕ, ◌^◌, ◌<◌, ◌≡◌, ◌⊎◌, refl, true, false, List, [], ◌∷◌, ◌++◌, arith}
use dragonradio.RingBuffer.{RingBuffer, new_ring, push, pop, front}
use dragonradio.RingBuffer.Refine.{IsValid, contents, push-contents, pop-contents}

abbrev storage : List ℕ
storage = 0 ∷ 0 ∷ []

fresh : IsValid 1 (new_ring storage) 0
unfolding new_ring
fresh = record {
  storage = refl;
  divides = dvd_of_mod-eq-zero 2 refl;
  small = omega arith;
  ridx_lt = omega arith;
  fits = omega arith;
  widx_at = refl;
}

-- One item, with the indices about to wrap.
abbrev wrapping : RingBuffer ℕ
wrapping = record { items = 7 ∷ 8 ∷ []; ridx = 4294967295; widx = 0 }

wrapping-IsValid : IsValid 1 wrapping 1
wrapping-IsValid = record {
  storage = refl;
  divides = dvd_of_mod-eq-zero 2 refl;
  small = omega arith;
  ridx_lt = omega arith;
  fits = omega arith;
  widx_at = refl;
}

push-contents_example :
    ((1 ≡ 2 ^ 1) × (push 1 9 wrapping ≡ (false, wrapping)))
    ⊎ ((1 < 2 ^ 1)
        × ((push 1 9 wrapping).0 ≡ true)
        × IsValid 1 (push 1 9 wrapping).1 2
        × (contents 1 0 (push 1 9 wrapping).1 2 ≡ contents 1 0 wrapping 1 ++ 9 ∷ []))
push-contents_example = push-contents 1 0 9 wrapping 1 wrapping-IsValid

pop-contents_example :
    IsValid 1 (pop wrapping) 0
    × (contents 1 0 wrapping 1 ≡ front 1 0 wrapping ∷ contents 1 0 (pop wrapping) 0)
pop-contents_example = pop-contents 1 0 wrapping 0 wrapping-IsValid

push_two : (push 1 6 (push 1 5 (new_ring storage)).1).1.items ≡ 5 ∷ 6 ∷ []
unfolding new_ring push
push_two = refl
