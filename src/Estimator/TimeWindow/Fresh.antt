-- ===== src/Estimator/TimeWindow/Fresh.antt =====
-- The mean over a time window, of samples that are whole numbers.
use mathlib.Core.List.{append-nil}
use dragonradio.Prelude.{
  ℕ, ◌+◌, ◌≤◌, ◌<◌, ◌≡◌, refl, sym, ◌∙◌, ap, true, false, List, [], ◌∷◌, ◌++◌, arith, length, ltb,
  ◌==◌, if◌then◌else◌, Bool-cases, inl, inr,
}
use dragonradio.Double.{Doubles, Exact}
use dragonradio.Estimator.TimeWindow
use dragonradio.Estimator.TimeWindow.{
  TimeWindow, new_time_window, purge_loop, purge, get_value, mean_of,
}

-- The samples that are left when the oldest are dropped as long as the window has passed them.
unfoldable pub fresh : ℕ → ℕ → List (ℕ × ℕ) → List (ℕ × ℕ)
fresh n t [] = []
fresh n t ((s, x) ∷ w) = let rest = fresh n t w in if ltb (s + n) t then rest else (s, x) ∷ w

abbrev pub total : List (ℕ × ℕ) → ℕ
total [] = 0
total ((s, x) ∷ w) = x + total w

-- The samples in the order of time, of a list with the latest first.
abbrev pub in_order : List (ℕ × ℕ) → List (ℕ × ℕ)
in_order [] = []
in_order (s ∷ older) = in_order older ++ (s ∷ [])

-- No sample is later than the one before it, nor than `t`.
abbrev pub IsPast : ℕ → List (ℕ × ℕ) → Type 0
IsPast t [] = 0 ≤ t
IsPast t ((s, x) ∷ older) = (s ≤ t) × IsPast s older

total-append : (a b : List (ℕ × ℕ)) → total (a ++ b) ≡ total a + total b
total-append [] b = omega arith
total-append ((s, x) ∷ a) b = omega (arith, total-append a b)

total-fresh : (n t : ℕ) (w : List (ℕ × ℕ)) → total (fresh n t w) ≤ total w
unfolding fresh
total-fresh n t [] = omega arith
total-fresh n t ((s, x) ∷ w) = elim (Bool-cases (ltb (s + n) t)) [
  | inl e ↦ rw e (omega (arith, total-fresh n t w))
  | inr e ↦ rw e (omega arith)
]

-- What was stale stays stale.
fresh-fresh :
    (n t t' : ℕ) (w r : List (ℕ × ℕ)) → t ≤ t' → fresh n t' (fresh n t w ++ r) ≡ fresh n t' (w ++ r)
unfolding fresh
fresh-fresh n t t' [] r h = refl
fresh-fresh n t t' ((s, x) ∷ w) r h = elim (Bool-cases (ltb (s + n) t)) [
  | inl e ↦
      let later : ltb (s + n) t' ≡ true = ground arith in rw (e, later) (fresh-fresh n t t' w r h)
  | inr e ↦ rw e refl
]

-- A new sample is fresh.
fresh-append :
    (n t x : ℕ) (w : List (ℕ × ℕ)) → fresh n t (w ++ ((t, x) ∷ [])) ≡ fresh n t w ++ ((t, x) ∷ [])
unfolding fresh
fresh-append n t x [] = let now : ltb (t + n) t ≡ false = ground arith in rw now refl
fresh-append n t x ((s, y) ∷ w) = elim (Bool-cases (ltb (s + n) t)) [
  | inl e ↦ rw e (fresh-append n t x w)
  | inr e ↦ rw e refl
]

fresh_again : (n t t' : ℕ) (w : List (ℕ × ℕ)) → t ≤ t' → fresh n t' (fresh n t w) ≡ fresh n t' w
fresh_again n t t' w h =
    ap (fresh n t') (sym (append-nil (fresh n t w)))
    ∙ fresh-fresh n t t' w [] h
    ∙ ap (fresh n t') (append-nil w)

-- What is left in the window after the latest sample.
abbrev recent : ℕ → List (ℕ × ℕ) → List (ℕ × ℕ)
recent n [] = []
recent n ((t, x) ∷ older) = fresh n t (in_order ((t, x) ∷ older))

fresh-recent :
    (n t : ℕ) (xs : List (ℕ × ℕ)) → IsPast t xs → fresh n t (recent n xs) ≡ fresh n t (in_order xs)
fresh-recent n t [] h = refl
fresh-recent n t ((s, x) ∷ older) (h, past) = fresh_again n s t (in_order ((s, x) ∷ older)) h

-- The samples, latest first, given to a new estimator.
unfoldable pub given : (ds : Doubles) → ℕ → List (ℕ × ℕ) → TimeWindow ds.Carrier
given ds n [] = new_time_window ds n
given ds n ((t, x) ∷ older) = TimeWindow.update ds t (ds.of_nat x) (given ds n older)

module _ (ds : Doubles) (ex : Exact ds) where
  -- The samples as the estimator holds them.
  abbrev doubles : List (ℕ × ℕ) → List (ℕ × ds.Carrier)
  doubles [] = []
  doubles ((s, x) ∷ w) = (s, ds.of_nat x) ∷ doubles w

  length-doubles : (w : List (ℕ × ℕ)) → length (doubles w) ≡ length w
  length-doubles [] = refl
  length-doubles ((s, x) ∷ w) = omega (arith, length-doubles w)

  doubles-append : (a b : List (ℕ × ℕ)) → doubles (a ++ b) ≡ doubles a ++ doubles b
  doubles-append [] b = refl
  doubles-append ((s, x) ∷ a) b = ap (◌∷◌ (s, ds.of_nat x)) (doubles-append a b)

  abbrev state : ℕ → List (ℕ × ℕ) → TimeWindow ds.Carrier
  state n w = record { twindow = n; window = doubles w; kept = ds.of_nat (total w) }

  purge_loop-fresh :
      (n t : ℕ) (w : List (ℕ × ℕ))
      → total w < 9007199254740992
      → purge_loop ds n t (ds.of_nat (total w)) (doubles w)
        ≡ (doubles (fresh n t w), ds.of_nat (total (fresh n t w)))
  unfolding purge_loop fresh
  purge_loop-fresh n t [] h = refl
  purge_loop-fresh n t ((s, x) ∷ w) h = elim (Bool-cases (ltb (s + n) t)) [
    | inl e ↦ rw (e, ex.minus-of_nat x (total w) h) (purge_loop-fresh n t w (omega arith))
    | inr e ↦ rw e refl
  ]

  purge-state :
      (n t : ℕ) (w : List (ℕ × ℕ))
      → total w < 9007199254740992
      → purge ds t (state n w) ≡ state n (fresh n t w)
  unfolding purge
  purge-state n t w h =
      ap
        (λ (r : List (ℕ × ds.Carrier) × ds.Carrier).
          let (window, sum) = r in record (state n w) { window = window; kept = sum })
        (purge_loop-fresh n t w h)

  update-state :
      (n t x : ℕ) (w : List (ℕ × ℕ))
      → total w + x < 9007199254740992
      → TimeWindow.update ds t (ds.of_nat x) (state n w) ≡ state n (fresh n t w ++ ((t, x) ∷ []))
  unfolding TimeWindow.update
  update-state n t x w h =
      let left = fresh n t w in
      let sum : ds.plus (ds.of_nat (total left)) (ds.of_nat x)
          ≡ ds.of_nat (total (left ++ ((t, x) ∷ []))) =
        ex.plus-of_nat (total left) x (omega (arith, total-fresh n t w))
        ∙ ap ds.of_nat (omega (arith, total-append left ((t, x) ∷ []))) in
      ap
        (λ (v : TimeWindow ds.Carrier). record v {
          window = v.window ++ ((t, ds.of_nat x) ∷ []);
          kept = ds.plus v.kept (ds.of_nat x);
        })
        (purge-state n t w (omega arith))
      ∙ ap
          (λ (k : ds.Carrier). record (state n left) {
            window = doubles left ++ ((t, ds.of_nat x) ∷ []);
            kept = k;
          })
          sum
      ∙ ap
          (λ (v : List (ℕ × ds.Carrier)). record (state n left) {
            window = v;
            kept = ds.of_nat (total (left ++ ((t, x) ∷ [])));
          })
          (sym (doubles-append left ((t, x) ∷ [])))

  total-recent : (n : ℕ) (xs : List (ℕ × ℕ)) → total (recent n xs) ≤ total (in_order xs)
  total-recent n [] = omega arith
  total-recent n ((t, x) ∷ older) = total-fresh n t (in_order ((t, x) ∷ older))

  given-recent :
      (n now : ℕ) (xs : List (ℕ × ℕ))
      → IsPast now xs
      → total (in_order xs) < 9007199254740992
      → given ds n xs ≡ state n (recent n xs)
  unfolding given new_time_window
  given-recent n now [] h small = refl
  given-recent n now ((t, x) ∷ older) (h, past) small =
      let sum = total-append (in_order older) ((t, x) ∷ []) in
      ap (TimeWindow.update ds t (ds.of_nat x)) (given-recent n t older past (omega arith))
      ∙ update-state n t x (recent n older) (omega (arith, total-recent n older))
      ∙ ap (λ (w : List (ℕ × ℕ)). state n (w ++ ((t, x) ∷ []))) (fresh-recent n t older past)
      ∙ ap (state n) (sym (fresh-append n t x (in_order older)))

  value-state :
      (n now : ℕ) (nan : ds.Carrier) (w : List (ℕ × ℕ))
      → total w < 9007199254740992
      → (get_value ds nan now (state n w)).0 ≡ mean_of ds nan (state n (fresh n now w))
  unfolding get_value
  value-state n now nan w h = ap (mean_of ds nan) (purge-state n now w h)

-- The mean over a time window, given whole numbers at times that do not decrease and whose sum is
-- below 2^53: at a time not before the last sample it is the sum over the number of the samples that
-- are left when the oldest are dropped as long as the window has passed them, and the NaN if none is.
pub get_value-fresh :
    (ds : Doubles) (n now : ℕ) (nan : ds.Carrier) (xs : List (ℕ × ℕ))
    → Exact ds
    → IsPast now xs
    → total (in_order xs) < 9007199254740992
    → let w = fresh n now (in_order xs) in
      (get_value ds nan now (given ds n xs)).0
      ≡ (if length w == 0 then nan else ds.divide (ds.of_nat (total w)) (ds.of_nat (length w)))
get_value-fresh ds n now nan xs ex past small =
    let left = fresh n now (in_order xs) in
    ap (λ (w : TimeWindow ds.Carrier). (get_value ds nan now w).0)
      (given-recent ds ex n now xs past small)
    ∙ value-state ds ex n now nan (recent n xs) (omega (arith, total-recent ds ex n xs))
    ∙ ap (λ (w : List (ℕ × ℕ)). mean_of ds nan (state ds ex n w)) (fresh-recent n now xs past)
    ∙ ap (λ (k : ℕ). if k == 0 then nan else ds.divide (ds.of_nat (total left)) (ds.of_nat k))
        (length-doubles ds ex left)
