-- ===== src/Arq/Selective/Freed.antt =====
-- What the whole of `handleSelectiveACK` does to the send window.
use mathlib.Core.List.{Memᴰ}
use mathlib.Core.List.Memᴰ
use dragonradio.Prelude.{
  ℕ, zero, suc, ◌≤◌, ◌<◌, ◌≡◌, ◌≢◌, inl, inr, refl, ◌∙◌, subst, Bool, true, false, not, ◌&&◌, none,
  List, [], ◌∷◌, arith, Bool-cases, length, if◌then◌else◌,
}
use dragonradio.Seq.{Seq, diff, lt, add, incr}
use dragonradio.Packet.{
  ControlMsg, hello, timestamp, timestamp_echo, receiver_stats, nak, selective_ack, set_unack,
}
use dragonradio.Arq.Send.{SendWindow, Env, entry, outside}
use dragonradio.Arq.Selective.{
  gap_loop, run_round, run_loop, one_sack, sack_messages, handle_selective_ack,
}
use dragonradio.Arq.Selective.Kept.{
  Kept, Kept-refl, Kept-trans, Acked, size_after, counters-Kept, gap_loop-Kept, run_round-Acked,
}

-- The first `n` numbers from `b` on are free where they are in the window.
pub record Freed (b n : ℕ) (w w' : SendWindow) : Type 0 where
  pub kept : Kept w w'
  pub freed : (j : ℕ) → j < n → outside w (add b j) ≡ false → (entry w' (add b j)).pkt ≡ none

same_outside : (w v : SendWindow) (s : Seq) → Kept w v → outside v s ≡ outside w s
same_outside w v s k = cc (k.same_unack, k.keeps.same_win)

module _ (s e : ℕ) (hs : s < 65536) (he : e < 65536) where
  run_goes : (f : ℕ) → diff e s ≡ suc f → lt s e ≡ true → diff e (incr s) ≡ f
  unfolding lt
  run_goes f d l = ground arith

  run_stays : lt s e ≡ true → 0 < diff e s
  unfolding lt
  run_stays l = ground arith

  run_ends : (f : ℕ) → diff e s ≡ suc f → f < 32768 → lt s e ≡ true
  unfolding lt
  run_ends f d h = ground arith

Freed-none : (b : ℕ) (w w' : SendWindow) → Kept w w' → Freed b 0 w w'
Freed-none b w w' k = record { kept = k; freed = λ j hj. absurd (omega arith) }

Freed-cons :
    (s f : ℕ) (u v w : SendWindow)
    → s < 65536
    → Acked s u v
    → Freed (incr s) f v w
    → Freed s (suc f) u w
Freed-cons s f u v w hs a r = record { kept = Kept-trans u v w a.kept r.kept; freed = go }
  where
    go : (j : ℕ) → j < suc f → outside u (add s j) ≡ false → (entry w (add s j)).pkt ≡ none
    go zero h o =
        let same : s ≡ add s 0 = omega arith in
        r.kept.keeps.still_free (add s 0)
          (subst (λ (t : ℕ). outside u t ≡ false → (entry v t).pkt ≡ none) same a.freed o)
    go (suc j) h o =
        let same : add (incr s) j ≡ add s (suc j) = omega arith in
        let moved : outside v (add s (suc j)) ≡ false =
          same_outside u v (add s (suc j)) a.kept ∙ o in
        subst (λ (t : ℕ). outside v t ≡ false → (entry w t).pkt ≡ none) same
          (r.freed j (omega arith)) moved

run_loop-Freed :
    (t f : ℕ) (s e : Seq) (w : SendWindow)
    → diff e s ≡ f
    → f ≤ 32768
    → s < 65536
    → e < 65536
    → 0 < length w.entries
    → Freed s f w (run_loop t f s e w).0
unfolding run_loop
run_loop-Freed t zero s e w d b hs he h = Freed-none s w w (Kept-refl w)
run_loop-Freed t (suc f) s e w d b hs he h =
    let l = run_ends s e hs he f d (omega arith) in
    let v = (run_round t s w).0 in
    let a = run_round-Acked t s w h in
    let r =
      run_loop-Freed t f (incr s) e v (run_goes s e hs he f d l) (omega arith) (omega arith) he
        (size_after w v a.kept h) in
    rw (l, run_loop) (Freed-cons s f w v (run_loop t f (incr s) e v).0 hs a r)

-- A run that does not start before its end, or is empty, frees all of its numbers.
run_loop-Kept :
    (t f : ℕ) (s e : Seq) (w : SendWindow) → 0 < length w.entries → Kept w (run_loop t f s e w).0
unfolding run_loop
run_loop-Kept t zero s e w h = Kept-refl w
run_loop-Kept t (suc f) s e w h = elim (Bool-cases (lt s e)) [
  | inr n ↦ rw (n, run_loop) (Kept-refl w)
  | inl l ↦
      let v = (run_round t s w).0 in
      let a = run_round-Acked t s w h in
      rw (l, run_loop)
        (Kept-trans w v (run_loop t f (incr s) e v).0 a.kept
          (run_loop-Kept t f (incr s) e v (size_after w v a.kept h)))
]

flag-Kept : (w : SendWindow) (c : Bool) → Kept w (record w { send_set_unack = c })
flag-Kept w c = counters-Kept w (record w { send_set_unack = c }) refl refl refl refl

-- The run's numbers are free after a selective ACK, when it runs forward.
one_sack-Kept :
    (env : Env) (t : ℕ) (saw : Bool) (next b e : Seq) (w : SendWindow)
    → 0 < length w.entries
    → Kept w (one_sack env t saw next b e w).0
unfolding one_sack
one_sack-Kept env t saw next b e w h =
    let c = if not saw && lt b w.unack then true else w.send_set_unack in
    let w₀ = record w { send_set_unack = c } in
    let v = (gap_loop env t (diff b next) next b w₀).0 in
    let k = Kept-trans w w₀ v (flag-Kept w c) (gap_loop-Kept env t (diff b next) next b w₀ h) in
    Kept-trans w v (run_loop t (diff e b) b e v).0 k
      (run_loop-Kept t (diff e b) b e v (size_after w v k h))

forward : (b e : ℕ) → b < 65536 → e < 65536 → lt b e ≡ true → diff e b ≤ 32768
unfolding lt
forward b e hb he l = ground arith

one_sack-Freed :
    (env : Env) (t : ℕ) (saw : Bool) (next b e : Seq) (w : SendWindow)
    → 0 < length w.entries
    → b < 65536
    → e < 65536
    → lt b e ≡ true
    → Freed b (diff e b) w (one_sack env t saw next b e w).0
unfolding one_sack
one_sack-Freed env t saw next b e w h hb he l =
    let c = if not saw && lt b w.unack then true else w.send_set_unack in
    let w₀ = record w { send_set_unack = c } in
    let v = (gap_loop env t (diff b next) next b w₀).0 in
    let k = Kept-trans w w₀ v (flag-Kept w c) (gap_loop-Kept env t (diff b next) next b w₀ h) in
    let r =
      run_loop-Freed t (diff e b) b e v refl (forward b e hb he l) hb he (size_after w v k h) in
    record {
      kept = one_sack-Kept env t saw next b e w h;
      freed = λ j hj o. r.freed j hj (same_outside w v (add b j) k ∙ o);
    }

-- All runs of a list of control messages.
pub record Selected (ms : List ControlMsg) (w w' : SendWindow) : Type 0 where
  pub kept : Kept w w'
  pub freed :
      (b e : Seq) (j : ℕ)
      → Memᴰ (selective_ack b e) ms
      → b < 65536
      → e < 65536
      → lt b e ≡ true
      → j < diff e b
      → outside w (add b j) ≡ false
      → (entry w' (add b j)).pkt ≡ none

Selected-nil : (w : SendWindow) → Selected [] w w
Selected-nil w = record { kept = Kept-refl w; freed = λ b e j m _ _ _ _ _. absurd (Memᴰ.not-nil m) }

-- A message of another kind.
Selected-skip :
    (m : ControlMsg) (ms : List ControlMsg) (w v : SendWindow)
    → ((b e : Seq) → selective_ack b e ≢ m)
    → Selected ms w v
    → Selected (m ∷ ms) w v
Selected-skip m ms w v n s = record {
  kept = s.kept;
  freed = λ b e j i hb he l h o. elim (Memᴰ.cases_cons i) [
    | inl y ↦ absurd (n b e y)
    | inr r ↦ s.freed b e j r hb he l h o
  ];
}

Selected-run :
    (b e : Seq) (ms : List ControlMsg) (w v u : SendWindow)
    → Kept w v
    → (b < 65536 → e < 65536 → lt b e ≡ true → Freed b (diff e b) w v)
    → Selected ms v u
    → Selected (selective_ack b e ∷ ms) w u
Selected-run b e ms w v u k f s = record {
  kept = Kept-trans w v u k s.kept;
  freed = λ c d j i hc hd l h o. elim (Memᴰ.cases_cons i) [
    | inr r ↦ s.freed c d j r hc hd l h (same_outside w v (add c j) k ∙ o)
    | inl y ↦
        let sb : b ≡ c = cc y in
        let se : e ≡ d = cc y in
        let g : (c < 65536 → d < 65536 → lt c d ≡ true → Freed c (diff d c) w v) =
          subst (λ (x : ℕ). x < 65536 → d < 65536 → lt x d ≡ true → Freed x (diff d x) w v) sb
            (subst (λ (x : ℕ). b < 65536 → x < 65536 → lt b x ≡ true → Freed b (diff x b) w v) se
              f) in
        s.kept.keeps.still_free (add c j) ((g hc hd l).freed j h o)
  ];
}

sack_messages-Selected :
    (env : Env) (t : ℕ) (saw : Bool) (next : Seq) (ms : List ControlMsg) (w : SendWindow)
    → 0 < length w.entries
    → Selected ms w (sack_messages env t saw next ms w).0
unfolding sack_messages
sack_messages-Selected env t saw next [] w h = Selected-nil w
sack_messages-Selected env t saw next (selective_ack b e ∷ ms) w h =
    let v = (one_sack env t saw next b e w).0 in
    let k = one_sack-Kept env t saw next b e w h in
    Selected-run b e ms w v (sack_messages env t true e ms v).0 k
      (one_sack-Freed env t saw next b e w h)
      (sack_messages-Selected env t true e ms v (size_after w v k h))
sack_messages-Selected env t saw next (hello x ∷ ms) w h =
    Selected-skip (hello x) ms w (sack_messages env t saw next ms w).0 (λ b e q. cc q)
      (sack_messages-Selected env t saw next ms w h)
sack_messages-Selected env t saw next (timestamp x ∷ ms) w h =
    Selected-skip (timestamp x) ms w (sack_messages env t saw next ms w).0 (λ b e q. cc q)
      (sack_messages-Selected env t saw next ms w h)
sack_messages-Selected env t saw next (timestamp_echo x y z ∷ ms) w h =
    Selected-skip (timestamp_echo x y z) ms w (sack_messages env t saw next ms w).0 (λ b e q. cc q)
      (sack_messages-Selected env t saw next ms w h)
sack_messages-Selected env t saw next (receiver_stats x y ∷ ms) w h =
    Selected-skip (receiver_stats x y) ms w (sack_messages env t saw next ms w).0 (λ b e q. cc q)
      (sack_messages-Selected env t saw next ms w h)
sack_messages-Selected env t saw next (nak x ∷ ms) w h =
    Selected-skip (nak x) ms w (sack_messages env t saw next ms w).0 (λ b e q. cc q)
      (sack_messages-Selected env t saw next ms w h)
sack_messages-Selected env t saw next (set_unack x ∷ ms) w h =
    Selected-skip (set_unack x) ms w (sack_messages env t saw next ms w).0 (λ b e q. cc q)
      (sack_messages-Selected env t saw next ms w h)

-- When a node reports the runs of numbers that it has received, whatever else the packet carries, the
-- send window lets go of the packet of each number of the window that some run covers. It fills no
-- free place, and its bounds stay. The window has places.
pub handle_selective_ack-Selected :
    (env : Env) (tfeedback : ℕ) (ms : List ControlMsg) (w : SendWindow)
    → 0 < length w.entries
    → Selected ms w (handle_selective_ack env tfeedback ms w).0
unfolding handle_selective_ack
handle_selective_ack-Selected env t ms w h = sack_messages-Selected env t false w.unack ms w h
