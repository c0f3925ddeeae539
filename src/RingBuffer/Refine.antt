-- ===== src/RingBuffer/Refine.antt =====
-- A ring buffer in use is a bounded first-in-first-out queue.
use Prim.Native.Nat.{◌∣◌}
use native.Mathlib.Nat.{mod-lt, mod-mod_of_dvd, mod-add-mod}
use dragonradio.Prelude.{
  ℕ, zero, suc, ◌+◌, ◌%◌, ◌^◌, ◌-◌, ◌≤◌, ◌<◌, ◌≡◌, ◌⊎◌, ◌≢◌, inl, inr, refl, sym, ◌∙◌, ap, subst,
  Bool, true, false, List, [], ◌∷◌, ◌++◌, arith, Bool-cases, length, get_or, set, length-set,
  get_or-set_self, get_or-set_ne, mod_distinct, ◌==◌, ==_iff,
}
use mathlib.Core.Path.{ap₂}
use dragonradio.RingBuffer.{RingBuffer, uint_mod, size, front, pop, push}

module _ {ℓ} {A : Type ℓ} (es : List A) (n : ℕ) (d : A) where
  -- The `k` items from index `a` on.
  abbrev pub window : ℕ → ℕ → List A
  window a zero = []
  window a (suc k) = get_or es (a % n) d ∷ window (a + 1) k

  length-window : (a k : ℕ) → length (window a k) ≡ k
  length-window a zero = refl
  length-window a (suc k) = ap suc (length-window (a + 1) k)

  -- The items depend on the index modulo the capacity only.
  window_mod : (a b k : ℕ) → a % n ≡ b % n → window a k ≡ window b k
  window_mod a b zero h = refl
  window_mod a b (suc k) h = ap₂ ◌∷◌ (ap (λ (t : ℕ). get_or es t d) h) (
      window_mod (a + 1) (b + 1) k
        (sym (mod-add-mod a n 1) ∙ ap (λ (t : ℕ). (t + 1) % n) h ∙ mod-add-mod b n 1))

-- Writing just past the window appends the item to it.
window-set {ℓ} :
    {A : Type ℓ} (es : List A) (n : ℕ) (d v : A) (k a j : ℕ)
    → length es ≡ n
    → k < n
    → j ≡ (a + k) % n
    → window (set es j v) n d a (suc k) ≡ window es n d a k ++ v ∷ []
window-set es n d v zero a j hl hk hj =
    let same : j ≡ a % n = hj ∙ ap (λ (t : ℕ). t % n) (omega arith) in
    let in_range : a % n < length es = subst (λ (t : ℕ). a % n < t) (sym hl) (mod-lt a hk) in
    rw same (ap (λ t. t ∷ []) (get_or-set_self es (a % n) v d in_range))
window-set es n d v (suc k) a j hl hk hj =
    let apart : j ≢ a % n = λ e. mod_distinct n a (suc k) (omega arith) hk (sym hj ∙ e) in
    ap₂ ◌∷◌ (get_or-set_ne es j (a % n) v d apart)
      (window-set es n d v k (a + 1) j hl (omega arith) (hj ∙ ap (λ (t : ℕ). t % n) (omega arith)))

-- The buffer holds `count` items. The capacity divides 2 ^ 32, so that indices that wrap there keep
-- their place.
pub record IsValid {ℓ} {A : Type ℓ} (logn : ℕ) (r : RingBuffer A) (count : ℕ) : Type ℓ where
  pub storage : length r.items ≡ 2 ^ logn
  pub divides : 2 ^ logn ∣ uint_mod
  pub small : 2 ^ logn < uint_mod
  pub ridx_lt : r.ridx < uint_mod
  pub fits : count ≤ 2 ^ logn
  pub widx_at : r.widx ≡ (r.ridx + count) % uint_mod

abbrev pub contents {ℓ} : {A : Type ℓ} → ℕ → A → RingBuffer A → ℕ → List A
contents logn d r count = window r.items (2 ^ logn) d r.ridx count

size_of_widx :
    (c a k w : ℕ)
    → k ≤ c
    → c < uint_mod
    → a < uint_mod
    → w ≡ (a + k) % uint_mod
    → (w + uint_mod - a) % uint_mod ≡ k
size_of_widx c a k w h0 h1 h2 h3 = ground arith

size_lem {ℓ} : {A : Type ℓ} (logn : ℕ) (r : RingBuffer A) (k : ℕ) → IsValid logn r k → size r ≡ k
unfolding size
size_lem logn r k v = size_of_widx (2 ^ logn) r.ridx k r.widx v.fits v.small v.ridx_lt v.widx_at

next_widx : (a k w : ℕ) → w ≡ (a + k) % uint_mod → (w + 1) % uint_mod ≡ (a + suc k) % uint_mod
next_widx a k w h = ground arith

next_ridx : (a k w : ℕ) → w ≡ (a + suc k) % uint_mod → w ≡ ((a + 1) % uint_mod + k) % uint_mod
next_ridx a k w h = ground arith

abbrev pushed {ℓ} : {A : Type ℓ} → ℕ → A → RingBuffer A → RingBuffer A
pushed logn v r = record r {
  items = set r.items (r.widx % 2 ^ logn) v;
  widx = (r.widx + 1) % uint_mod;
}

push_room {ℓ} :
    {A : Type ℓ} (logn : ℕ) (v : A) (r : RingBuffer A)
    → (size r == 2 ^ logn) ≡ false
    → push logn v r ≡ (true, pushed logn v r)
unfolding push
push_room logn v r e = rw e refl

push_full {ℓ} :
    {A : Type ℓ} (logn : ℕ) (v : A) (r : RingBuffer A)
    → (size r == 2 ^ logn) ≡ true
    → push logn v r ≡ (false, r)
unfolding push
push_full logn v r e = rw e refl

pushed-IsValid {ℓ} :
    {A : Type ℓ} (logn : ℕ) (v : A) (r : RingBuffer A) (k : ℕ)
    → k < 2 ^ logn
    → IsValid logn r k
    → IsValid logn (pushed logn v r) (suc k)
pushed-IsValid logn v r k l h = record {
  storage = length-set r.items (r.widx % 2 ^ logn) v ∙ h.storage;
  divides = h.divides;
  small = h.small;
  ridx_lt = h.ridx_lt;
  fits = omega arith;
  widx_at = next_widx r.ridx k r.widx h.widx_at;
}

pushed-contents {ℓ} :
    {A : Type ℓ} (logn : ℕ) (d v : A) (r : RingBuffer A) (k : ℕ)
    → k < 2 ^ logn
    → IsValid logn r k
    → contents logn d (pushed logn v r) (suc k) ≡ contents logn d r k ++ v ∷ []
pushed-contents logn d v r k l h =
    window-set r.items (2 ^ logn) d v k r.ridx (r.widx % 2 ^ logn) h.storage l
      (ap (λ (t : ℕ). t % 2 ^ logn) h.widx_at ∙ mod-mod_of_dvd (2 ^ logn) (r.ridx + k) h.divides)

-- Pushing onto a full buffer is refused and changes nothing; otherwise it succeeds, keeps the
-- buffer's invariant and appends the item to the contents.
pub push-contents {ℓ} :
    {A : Type ℓ} (logn : ℕ) (d v : A) (r : RingBuffer A) (k : ℕ)
    → IsValid logn r k
    → ((k ≡ 2 ^ logn) × (push logn v r ≡ (false, r)))
      ⊎ ((k < 2 ^ logn)
          × ((push logn v r).0 ≡ true)
          × IsValid logn (push logn v r).1 (suc k)
          × (contents logn d (push logn v r).1 (suc k) ≡ contents logn d r k ++ v ∷ []))
push-contents {A = A} logn d v r k h =
    let same = size_lem logn r k h in
    elim (Bool-cases (size r == 2 ^ logn)) [
      | inl e ↦ inl (sym same ∙ (==_iff (size r) (2 ^ logn)).0 e, push_full logn v r e)
      | inr e ↦
          let q = push_room logn v r e in
          let apart : k ≢ 2 ^ logn =
            λ t. absurd (cc (e, (==_iff (size r) (2 ^ logn)).1 (same ∙ t))) in
          let l : k < 2 ^ logn = omega (arith, h.fits, apart) in
          inr (
            l,
            rw q refl,
            rw q (pushed-IsValid logn v r k l h),
            ap (λ (t : Bool × RingBuffer A). contents logn d t.1 (suc k)) q
                ∙ pushed-contents logn d v r k l h,
          )
    ]

-- Popping a buffer that is not empty keeps its invariant and removes the item that `front` shows.
pub pop-contents {ℓ} :
    {A : Type ℓ} (logn : ℕ) (d : A) (r : RingBuffer A) (k : ℕ)
    → IsValid logn r (suc k)
    → IsValid logn (pop r) k
      × (contents logn d r (suc k) ≡ front logn d r ∷ contents logn d (pop r) k)
unfolding pop front
pop-contents logn d r k h = (
  record {
    storage = h.storage;
    divides = h.divides;
    small = h.small;
    ridx_lt = mod-lt (r.ridx + 1) (omega arith);
    fits = omega (arith, h.fits);
    widx_at = next_ridx r.ridx k r.widx h.widx_at;
  },
  ap (◌∷◌ (get_or r.items (r.ridx % 2 ^ logn) d)) (
      window_mod r.items (2 ^ logn) d (r.ridx + 1) ((r.ridx + 1) % uint_mod) k
        (sym (mod-mod_of_dvd (2 ^ logn) (r.ridx + 1) h.divides))),
)
