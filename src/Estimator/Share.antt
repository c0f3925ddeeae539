-- ===== src/Estimator/Share.antt =====
-- The windowed mean of samples that are 0 or 1.
use native.Mathlib.Nat.{mod-lt}
use dragonradio.Prelude.{
  ℕ, zero, suc, ◌+◌, ◌%◌, ◌≤◌, ◌<◌, ◌≡◌, refl, ap, ◌∙◌, Bool, true, false, ◌||◌, List, [], ◌∷◌,
  arith, length, get_or, take, length-replicate, get_or-replicate, min, if◌then◌else◌, ◌==◌,
}
use dragonradio.Recent.{mod-step, IsRecent, push-IsRecent, oldest}
use dragonradio.Double.{Doubles, Exact}
use dragonradio.Estimator.WindowedMean
use dragonradio.Estimator.WindowedMean.{
  WindowedMean, get_window_size, new_windowed_mean, get_value, get_nsamples,
}

abbrev pub one_if : Bool → ℕ
one_if true = 1
one_if false = 0

-- How many of the samples are failures.
abbrev pub failures : List Bool → ℕ
failures [] = 0
failures (b ∷ bs) = one_if b + failures bs

-- The samples, latest first, given to an estimator.
unfoldable pub given :
    (ds : Doubles) → List Bool → WindowedMean ds.Carrier → WindowedMean ds.Carrier
given ds [] w = w
given ds (b ∷ bs) w = WindowedMean.update ds (ds.of_nat (one_if b)) (given ds bs w)

failures-take_nil : (n : ℕ) → failures (take n []) ≡ 0
failures-take_nil zero = refl
failures-take_nil (suc n) = refl

one_if-le : (b : Bool) → one_if b ≤ 1
one_if-le true = omega arith
one_if-le false = omega arith

failures-take : (n : ℕ) (bs : List Bool) → failures (take n bs) ≤ n
failures-take zero bs = omega arith
failures-take (suc n) [] = omega arith
failures-take (suc n) (true ∷ bs) = omega (arith, failures-take n bs)
failures-take (suc n) (false ∷ bs) = omega (arith, failures-take n bs)

-- The sample that falls out of the window.
abbrev last_of : ℕ → List Bool → ℕ
last_of n bs = one_if (get_or bs n false)

failures-take-suc :
    (n : ℕ) (bs : List Bool) → failures (take (suc n) bs) ≡ last_of n bs + failures (take n bs)
failures-take-suc zero [] = refl
failures-take-suc zero (b ∷ bs) = refl
failures-take-suc (suc n) [] = refl
failures-take-suc (suc n) (b ∷ bs) = omega (arith, failures-take-suc n bs)

module _ (ds : Doubles) (m : ℕ) where
  -- The samples as the ring holds them.
  abbrev bits : List Bool → List ds.Carrier
  bits [] = []
  bits (b ∷ bs) = ds.of_nat (one_if b) ∷ bits bs

  bits-last_of :
      (k : ℕ) (bs : List Bool) → get_or (bits bs) k (ds.of_nat 0) ≡ ds.of_nat (last_of k bs)
  bits-last_of k [] = refl
  bits-last_of zero (b ∷ bs) = refl
  bits-last_of (suc k) (b ∷ bs) = bits-last_of k bs

  -- The ring of `m + 1` places after the samples `bs`.
  record Holds (bs : List Bool) (w : WindowedMean ds.Carrier) : Type 0 where
    pub ring : IsRecent m (ds.of_nat 0) w.window (w.i % suc m) (bits bs)
    pub count : w.i ≡ length bs
    pub total : w.sum ≡ ds.of_nat (failures (take (suc m) bs))

  new-Holds : Holds [] (new_windowed_mean ds (suc m))
  unfolding new_windowed_mean
  new-Holds = record {
    ring = record {
      size = length-replicate (suc m) (ds.of_nat 0);
      recent = λ k p. get_or-replicate (suc m) (ds.of_nat 0) _;
    };
    count = refl;
    total = refl;
  }

  slid :
      (b : Bool) (bs : List Bool) (x o : ds.Carrier)
      → Exact ds
      → m + 2 < 9007199254740992
      → x ≡ ds.of_nat (failures (take (suc m) bs))
      → o ≡ ds.of_nat (last_of m bs)
      → ds.plus (ds.minus x o) (ds.of_nat (one_if b)) ≡ ds.of_nat (failures (take (suc m) (b ∷ bs)))
  slid b bs x o ex small ex' eo =
      let rest = failures (take m bs) in
      let le = failures-take m bs in
      let l1 = one_if-le (get_or bs m false) in
      let l2 = one_if-le b in
      let old : ds.minus x o ≡ ds.of_nat rest =
        rw (ex', eo, failures-take-suc m bs) (ex.minus-of_nat (last_of m bs) rest (omega arith)) in
      rw old (ex.plus-of_nat rest (one_if b) (omega arith) ∙ ap ds.of_nat (omega arith))

  replaced :
      (bs : List Bool) (w : WindowedMean ds.Carrier)
      → Holds bs w
      → get_or w.window (w.i % length w.window) (ds.of_nat 0) ≡ ds.of_nat (last_of m bs)
  replaced bs w v =
      let here : w.i % suc m < suc m = mod-lt w.i (omega arith) in
      rw v.ring.size (
        oldest m (ds.of_nat 0) w.window (w.i % suc m) (bits bs) (omega arith) v.ring
        ∙ bits-last_of m bs)

  new_total :
      (b : Bool) (bs : List Bool) (w : WindowedMean ds.Carrier)
      → Exact ds
      → m + 2 < 9007199254740992
      → Holds bs w
      → (WindowedMean.update ds (ds.of_nat (one_if b)) w).sum
        ≡ ds.of_nat (failures (take (suc m) (b ∷ bs)))
  unfolding WindowedMean.update
  new_total b [] w ex small v = rw v.count (ap ds.of_nat (omega (arith, failures-take_nil m)))
  new_total b (c ∷ cs) w ex small v =
      let busy : (w.i == 0) ≡ false = ground (arith, v.count) in
      rw busy (
        slid b (c ∷ cs) w.sum (get_or w.window (w.i % length w.window) (ds.of_nat 0)) ex small
          v.total (replaced (c ∷ cs) w v))

  update-Holds :
      (b : Bool) (bs : List Bool) (w : WindowedMean ds.Carrier)
      → Exact ds
      → m + 2 < 9007199254740992
      → length bs + 1 < 18446744073709551616
      → Holds bs w
      → Holds (b ∷ bs) (WindowedMean.update ds (ds.of_nat (one_if b)) w)
  unfolding WindowedMean.update
  update-Holds b bs w ex small len v =
      let wraps : (w.i + 1) % 18446744073709551616 ≡ w.i + 1 = omega (arith, v.count) in
      let here : w.i % suc m < suc m = mod-lt w.i (omega arith) in
      record {
        ring =
            rw (v.ring.size, wraps)
              (push-IsRecent m (ds.of_nat 0) w.window (w.i % suc m) ((w.i + 1) % suc m) (bits bs)
                (ds.of_nat (one_if b)) (omega arith) (mod-step w.i m) v.ring);
        count = omega (arith, v.count);
        total = new_total b bs w ex small v;
      }

  -- What the estimator answers.
  answer :
      (bs : List Bool) (w : WindowedMean ds.Carrier)
      → m + 1 < 4294967296
      → Holds bs w
      → (get_value ds w ≡ (
          if length bs == 0
          then ds.of_nat 0
          else ds.divide
              (ds.of_nat (failures (take (suc m) bs)))
              (ds.of_nat (min (length bs) (suc m)))))
        × (get_nsamples ds w ≡ min (length bs) (suc m))
  unfolding get_value get_nsamples
  answer [] w small v = rw (v.count, v.ring.size) (v.total, omega arith)
  answer (c ∷ cs) w small v =
      let busy : (w.i == 0 || suc m == 0) ≡ false = ground (arith, v.count) in
      let some_of : (length (c ∷ cs) == 0) ≡ false = ground arith in
      (
        rw (v.ring.size, busy, some_of, v.total, v.count, get_value) refl,
        rw (v.count, v.ring.size) (omega arith),
      )

given-Holds :
    (ds : Doubles) (m : ℕ) (bs : List Bool)
    → Exact ds
    → m + 2 < 9007199254740992
    → length bs < 18446744073709551616
    → Holds ds m bs (given ds bs (new_windowed_mean ds (suc m)))
unfolding given
given-Holds ds m [] ex small len = new-Holds ds m
given-Holds ds m (b ∷ bs) ex small len =
    update-Holds ds m b bs (given ds bs (new_windowed_mean ds (suc m))) ex small (omega arith)
      (given-Holds ds m bs ex small (omega arith))

-- The packet error rate: an estimator with a window of `n` samples, given a 1 for every failure and a
-- 0 for every success, answers how many of the last `n` samples were failures over how many of the
-- last `n` samples there are, and 0 if there are none. Its number of samples is the latter.
pub get_value_share :
    (ds : Doubles) (n : ℕ) (bs : List Bool)
    → Exact ds
    → 0 < n
    → n < 4294967296
    → length bs < 18446744073709551616
    → let w = given ds bs (new_windowed_mean ds n) in
      (get_value ds w ≡ (
        if length bs == 0
        then ds.of_nat 0
        else ds.divide (ds.of_nat (failures (take n bs))) (ds.of_nat (min (length bs) n))))
      × (get_nsamples ds w ≡ min (length bs) n)
get_value_share ds zero bs ex pos small len = absurd (omega arith)
get_value_share ds (suc m) bs ex pos small len =
    answer ds m bs (given ds bs (new_windowed_mean ds (suc m))) (omega arith)
      (given-Holds ds m bs ex (omega arith) len)
