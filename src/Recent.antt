-- ===== src/Recent.antt =====
-- A ring that is written at one place after the other: it holds what was written last.
use native.Mathlib.Nat.{mod-lt, mod-add-mod, mod-eq_of_lt, mod_self}
use dragonradio.Prelude.{
  ℕ, zero, suc, ◌+◌, ◌-◌, ◌%◌, ◌≤◌, ◌<◌, ◌≡◌, ◌≢◌, ◌⊎◌, inl, inr, sym, ap, ◌∙◌, subst, List, ◌∷◌,
  arith, length, get_or, set, length-set, get_or-set_self, get_or-set_ne, ℕ_discrete, if◌then◌else◌,
  ltb,
}

mod-suc_below : (i n : ℕ) → i % n + 1 < n → (i + 1) % n ≡ i % n + 1
mod-suc_below i n h = sym (mod-add-mod i n 1) ∙ mod-eq_of_lt h

mod-suc_wrap : (i n : ℕ) → i % n + 1 ≡ n → (i + 1) % n ≡ 0
mod-suc_wrap i n h = sym (mod-add-mod i n 1) ∙ ap (λ (t : ℕ). t % n) h ∙ mod_self n

-- Where the sample that is `k` before the latest stands, when the next goes to `p`.
abbrev pub behind : ℕ → ℕ → ℕ → ℕ
behind m p k = if ltb k p then p - 1 - k else p + m - k

behind-first : (m p q : ℕ) → p ≤ m → (q ≡ p + 1) ⊎ ((p ≡ m) × (q ≡ 0)) → behind m q 0 ≡ p
behind-first m p q h (inl e) = ground arith
behind-first m p q h (inr (e, f)) = ground arith

behind-next :
    (m p q k : ℕ)
    → p ≤ m
    → suc k ≤ m
    → (q ≡ p + 1) ⊎ ((p ≡ m) × (q ≡ 0))
    → (behind m q (suc k) ≡ behind m p k) × (p ≢ behind m p k)
behind-next m p q k h hk (inl e) = (ground arith, λ t. ground arith)
behind-next m p q k h hk (inr (e, f)) = (ground arith, λ t. ground arith)

behind-oldest : (m p : ℕ) → p ≤ m → behind m p m ≡ p
behind-oldest m p h = ground arith

pub mod-step :
    (i m : ℕ) → ((i + 1) % suc m ≡ i % suc m + 1) ⊎ ((i % suc m ≡ m) × ((i + 1) % suc m ≡ 0))
mod-step i m =
    let fits : i % suc m < suc m = mod-lt i (omega arith) in
    elim (ℕ_discrete (i % suc m) m) [
      | yes e ↦ inr (e, mod-suc_wrap i (suc m) (omega (arith, e)))
      | no n ↦ inl (mod-suc_below i (suc m) (omega (arith, fits)))
    ]

pub place-step : (i m : ℕ) → i ≤ m → ((i + 1) % suc m ≡ i + 1) ⊎ ((i ≡ m) × ((i + 1) % suc m ≡ 0))
place-step i m h =
    let same : i % suc m ≡ i = mod-eq_of_lt (omega arith) in
    subst (λ (t : ℕ). ((i + 1) % suc m ≡ t + 1) ⊎ ((t ≡ m) × ((i + 1) % suc m ≡ 0))) same
      (mod-step i m)

module _ {ℓ} {A : Type ℓ} (m : ℕ) (d : A) where
  -- The ring `es` of `m + 1` places, to be written next at `p`, after the values `hs`, latest first.
  pub record IsRecent (es : List A) (p : ℕ) (hs : List A) : Type ℓ where
    pub size : length es ≡ suc m
    pub recent : (k : ℕ) → k ≤ m → get_or es (behind m p k) d ≡ get_or hs k d

  pub push-IsRecent :
      (es : List A) (p q : ℕ) (hs : List A) (x : A)
      → p ≤ m
      → (q ≡ p + 1) ⊎ ((p ≡ m) × (q ≡ 0))
      → IsRecent es p hs
      → IsRecent (set es p x) q (x ∷ hs)
  push-IsRecent es p q hs x hp step v = record { size = length-set es p x ∙ v.size; recent = go }
    where
      go : (k : ℕ) → k ≤ m → get_or (set es p x) (behind m q k) d ≡ get_or (x ∷ hs) k d
      go zero hk =
          ap (λ (t : ℕ). get_or (set es p x) t d) (behind-first m p q hp step)
          ∙ get_or-set_self es p x d (omega (arith, v.size))
      go (suc k) hk =
          let moved = behind-next m p q k hp hk step in
          ap (λ (t : ℕ). get_or (set es p x) t d) moved.0
          ∙ get_or-set_ne es p (behind m p k) x d moved.1
          ∙ v.recent k (omega arith)

  -- What the next write replaces.
  pub oldest :
      (es : List A) (p : ℕ) (hs : List A) → p ≤ m → IsRecent es p hs → get_or es p d ≡ get_or hs m d
  oldest es p hs hp v =
      subst (λ (t : ℕ). get_or es t d ≡ get_or hs m d) (behind-oldest m p hp)
        (v.recent m (omega arith))
