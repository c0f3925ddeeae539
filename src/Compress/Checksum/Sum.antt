-- ===== src/Compress/Checksum/Sum.antt =====
-- The sums of `ip_checksum_update`, which add in ones' complement.
use dragonradio.Prelude.{ℕ, ◌+◌, ◌*◌, ◌<◌, ◌≡◌, ◌≢◌, sym, ◌∙◌, ap, refl, List, [], ◌∷◌, arith, suc}
use dragonradio.Compress.Bytes.{IsBytes}
use dragonradio.Compress.Checksum.{add_word, ip_checksum_update, complement}

pub add_word-lt : (a w : ℕ) → a < 65536 → w < 65536 → add_word a w < 65536
unfolding add_word
add_word-lt a w ha hw = ground arith

pub add_word-zero : (a : ℕ) → a < 65536 → add_word a 0 ≡ a
unfolding add_word
add_word-zero a h = ground arith

swap_words :
    (a v w : ℕ)
    → a < 65536
    → v < 65536
    → w < 65536
    → add_word (add_word a v) w ≡ add_word (add_word a w) v
unfolding add_word
swap_words a v w ha hv hw = ground arith

pub update-lt : (a : ℕ) (bs : List ℕ) → a < 65536 → IsBytes bs → ip_checksum_update a bs < 65536
update-lt a [] ha h = ha
update-lt a (b ∷ []) ha h = let b₀ = h 0 in add_word-lt a (256 * b) ha (omega arith)
update-lt a (b ∷ c ∷ bs) ha h =
    let b₀ = h 0 in
    let c₀ = h 1 in
    update-lt (add_word a (256 * b + c)) bs (add_word-lt a (256 * b + c) ha (omega arith))
      (λ i. h (suc (suc i)))

-- A word that is added before the others may be added behind them.
pub update-add :
    (a s : ℕ) (bs : List ℕ)
    → a < 65536
    → s < 65536
    → IsBytes bs
    → ip_checksum_update (add_word a s) bs ≡ add_word (ip_checksum_update a bs) s
update-add a s [] ha hs h = refl
update-add a s (b ∷ []) ha hs h = let b₀ = h 0 in swap_words a s (256 * b) ha hs (omega arith)
update-add a s (b ∷ c ∷ bs) ha hs h =
    let b₀ = h 0 in
    let c₀ = h 1 in
    let w = 256 * b + c in
    let hw : w < 65536 = omega arith in
    ap (λ (t : ℕ). ip_checksum_update t bs) (swap_words a s w ha hs hw)
    ∙ update-add (add_word a w) s bs (add_word-lt a w ha hw) hs (λ i. h (suc (suc i)))

-- The word that makes a sum verify is its complement, unless it is 0xffff.
verified_word :
    (r s : ℕ) → r < 65536 → s < 65536 → s ≢ 65535 → complement (add_word r s) ≡ 0 → complement r ≡ s
unfolding add_word
verified_word r s hr hs n e = ground arith

-- A header that verifies holds the checksum of the header with the checksum set to 0.
pub checksum_restored :
    (a s : ℕ) (bs : List ℕ)
    → a < 65536
    → s < 65536
    → IsBytes bs
    → s ≢ 65535
    → complement (ip_checksum_update (add_word a s) bs) ≡ 0
    → complement (ip_checksum_update (add_word a 0) bs) ≡ s
checksum_restored a s bs ha hs h n e =
    ap (λ (t : ℕ). complement (ip_checksum_update t bs)) (add_word-zero a ha)
    ∙ verified_word (ip_checksum_update a bs) s (update-lt a bs ha h) hs n
        (ap complement (sym (update-add a s bs ha hs h)) ∙ e)
