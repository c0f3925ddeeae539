-- ===== src/Arq/Recv/Loops.antt =====
-- The loops of `handleSetUnack` and `advanceRecvWindow`, and the windows that they leave.
use dragonradio.Prelude.{
  ℕ, zero, suc, ◌<◌, ◌≡◌, inl, inr, refl, sym, subst, true, false, arith, Bool-cases,
}
use dragonradio.Seq.{diff, lt, gt, incr}
use dragonradio.Arq.Recv.{cleared, RecvWindow, put, release_loop, forget_loop, set_unack_to}
use dragonradio.Arq.Recv.Filed.{Filed, release-Filed}
use dragonradio.Arq.Recv.Fill.{Bounded}

-- The two facts about a receive window that every operation keeps.
pub record IsValid (w : RecvWindow) : Type 0 where
  pub filed : Filed w.ack w.win w.max w.entries
  pub bounded : Bounded w.ack w.win w.max

pub lt_of_diff :
    (a b f : ℕ) → a < 65536 → b < 65536 → diff b a ≡ suc f → suc f < 32768 → lt a b ≡ true
unfolding lt
lt_of_diff a b f ha hb e h = ground arith

pub lt_none : (a b : ℕ) → a < 65536 → b < 65536 → diff b a ≡ 0 → lt a b ≡ false
unfolding lt
lt_none a b ha hb e = ground arith

-- With as many rounds as numbers lie ahead, the loop ends at `next`.
pub release_loop-Filed :
    (f seq next : ℕ) (w : RecvWindow)
    → next < 65536
    → diff next seq ≡ f
    → f < 32768
    → Filed seq w.win w.max w.entries
    → let w' = release_loop f seq next w in
      Filed next w.win w.max w'.entries × (w'.win ≡ w.win) × (w'.max ≡ w.max) × (w'.ack ≡ w.ack)
unfolding release_loop
release_loop-Filed zero seq next w hn e h v =
    let same : seq ≡ next = omega (arith, v.ack_lt) in
    (subst (λ t. Filed t w.win w.max w.entries) same v, refl, refl, refl)
release_loop-Filed (suc f) seq next w hn e h v =
    rw (lt_of_diff seq next f v.ack_lt hn e h, release_loop)
      (release_loop-Filed f (incr seq) next (put w seq cleared) hn (omega (arith, v.ack_lt))
        (omega arith) (release-Filed seq w.win w.max w.entries v))

pub forget_loop-Filed :
    (f seq forget : ℕ) (w : RecvWindow)
    → forget < 65536
    → diff forget seq ≡ f
    → f < 32768
    → Filed seq w.win w.max w.entries
    → let w' = (forget_loop f seq forget w).0 in
      Filed forget w.win w.max w'.entries × (w'.win ≡ w.win) × (w'.max ≡ w.max) × (w'.ack ≡ w.ack)
unfolding forget_loop
forget_loop-Filed zero seq forget w hn e h v =
    let same : seq ≡ forget = omega (arith, v.ack_lt) in
    (subst (λ t. Filed t w.win w.max w.entries) same v, refl, refl, refl)
forget_loop-Filed (suc f) seq forget w hn e h v =
    rw (lt_of_diff seq forget f v.ack_lt hn e h, forget_loop)
      (forget_loop-Filed f (incr seq) forget (put w seq cleared) hn (omega (arith, v.ack_lt))
        (omega arith) (release-Filed seq w.win w.max w.entries v))

pub gt-diff : (a b : ℕ) → a < 65536 → b < 65536 → gt a b ≡ true → diff a b < 32768
unfolding gt
gt-diff a b ha hb h = ground arith

-- A window whose `ack` is set to where its entries are filed from.
pub set_ack-IsValid :
    (w : RecvWindow) (a n mx : ℕ)
    → Filed a n mx w.entries × (w.win ≡ n) × (w.max ≡ mx)
    → Bounded a n mx
    → IsValid (record w { ack = a })
set_ack-IsValid w a n mx (f, en, em) b = record {
  filed =
      subst (λ t. Filed a t w.max w.entries) (sym en)
        (subst (λ t. Filed a n t w.entries) (sym em) f);
  bounded = subst (λ t. Bounded a t w.max) (sym en) (subst (Bounded a n) (sym em) b);
}

-- A sender that announces a new first number moves the window there, if the largest number
-- received stays comparable with the window; otherwise nothing changes.
pub set_unack_to-IsValid :
    (next : ℕ) (w : RecvWindow)
    → next < 65536
    → (gt next w.ack ≡ true → Bounded next w.win w.max)
    → IsValid w
    → IsValid (set_unack_to next w)
unfolding set_unack_to
set_unack_to-IsValid next w hn b v = elim (Bool-cases (gt next w.ack)) [
  | inl e ↦
      let r =
        release_loop-Filed (diff next w.ack) w.ack next w hn refl
          (gt-diff next w.ack hn v.filed.ack_lt e) v.filed in
      rw (e, set_unack_to)
        (set_ack-IsValid (release_loop (diff next w.ack) w.ack next w) next w.win w.max
          (r.0, r.1, r.2) (b e))
  | inr e ↦ rw (e, set_unack_to) v
]
