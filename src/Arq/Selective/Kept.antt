-- ===== src/Arq/Selective/Kept.antt =====
-- What the parts of `handleSelectiveACK` leave as it is.
use native.Mathlib.Nat.{mod-lt}
use dragonradio.Prelude.{
  ℕ, zero, suc, ◌%◌, ◌<◌, ◌≡◌, inl, inr, refl, sym, ap, ◌∙◌, subst, Bool, true, false, ◌&&◌, ◌||◌,
  Option, none, some, List, [], arith, Bool-cases, length, get_or, set, length-set, get_or-set_self,
  get_or-set_ne, ℕ_discrete, if◌then◌else◌, ltb,
}
use dragonradio.Seq.{Seq, lt, ge, add, incr}
use dragonradio.Packet.{NetPacket}
use dragonradio.Arq.Send.{
  SendWindow, Entry, outside, Env, entry, put, vacant, tx_success, tx_failure, start_timer, again,
  resend, retransmit, handle_ack,
}
use dragonradio.Arq.Send.Ack.{Keeps, Keeps-refl, Keeps-trans, handle_ack-Handled}
use dragonradio.Arq.Selective.{gap_round, gap_loop, run_round}

-- The window keeps its bounds, and what is free stays free.
pub record Kept (w w' : SendWindow) : Type 0 where
  pub keeps : Keeps w w'
  pub same_unack : w'.unack ≡ w.unack

pub Kept-refl : (w : SendWindow) → Kept w w
Kept-refl w = record { keeps = Keeps-refl w; same_unack = refl }

pub Kept-trans : (u v w : SendWindow) → Kept u v → Kept v w → Kept u w
Kept-trans u v w a b = record {
  keeps = Keeps-trans u v w a.keeps b.keeps;
  same_unack = b.same_unack ∙ a.same_unack;
}

-- A place that is written is free only if it was, or becomes so.
place-set :
    (es : List Entry) (i j : ℕ) (e : Entry)
    → i < length es
    → ((get_or es i vacant).pkt ≡ none → e.pkt ≡ none)
    → (get_or es j vacant).pkt ≡ none
    → (get_or (set es i e) j vacant).pkt ≡ none
place-set es i j e h q r = elim (ℕ_discrete i j) [
  | yes s ↦
      let was : (get_or es i vacant).pkt ≡ none =
        subst (λ (t : ℕ). (get_or es t vacant).pkt ≡ none) (sym s) r in
      subst (λ (t : ℕ). (get_or (set es i e) t vacant).pkt ≡ none) s
        (ap (λ (t : Entry). t.pkt) (get_or-set_self es i e vacant h) ∙ q was)
  | no n ↦ ap (λ (t : Entry). t.pkt) (get_or-set_ne es i j e vacant n) ∙ r
]

put-Kept :
    (w : SendWindow) (s : Seq) (e : Entry)
    → 0 < length w.entries
    → ((entry w s).pkt ≡ none → e.pkt ≡ none)
    → Kept w (put w s e)
put-Kept w s e h q = record {
  keeps = record {
    same_max = refl;
    same_win = refl;
    same_size = length-set w.entries (s % length w.entries) e;
    still_free = λ t r.
        rw (length-set w.entries (s % length w.entries) e)
          (place-set w.entries (s % length w.entries) (t % length w.entries) e (mod-lt s h) q r);
  };
  same_unack = refl;
}

resend-Kept :
    (env : Env) (s : Seq) (w : SendWindow) (o : Option NetPacket)
    → (entry w s).pkt ≡ o
    → 0 < length w.entries
    → Kept w (resend env s w o).0
resend-Kept env s w none e h = Kept-refl w
resend-Kept env s w (some p) e h = elim (Bool-cases env.me_can_transmit) [
  | inl m ↦ rw m (
      put-Kept w s (record (entry w s) { pkt = some (again p); running = false }) h
        (λ n. absurd (cc (n, e))))
  | inr m ↦ rw m (put-Kept w s (start_timer (record (entry w s) { running = false })) h (λ n. n))
]

retransmit-Kept :
    (env : Env) (s : Seq) (w : SendWindow) → 0 < length w.entries → Kept w (retransmit env s w).0
unfolding retransmit
retransmit-Kept env s w h = elim (Bool-cases env.dest_can_transmit) [
  | inl d ↦ rw (d, retransmit) (resend-Kept env s w (entry w s).pkt refl h)
  | inr d ↦
      rw (d, retransmit)
        (put-Kept w s (start_timer (record (entry w s) { running = false })) h (λ n. n))
]

-- A change of the counters alone.
pub counters-Kept :
    (w v : SendWindow)
    → v.max ≡ w.max
    → v.win ≡ w.win
    → v.unack ≡ w.unack
    → v.entries ≡ w.entries
    → Kept w v
counters-Kept w v m n u e = record {
  keeps = record {
    same_max = m;
    same_win = n;
    same_size = ap length e;
    still_free =
        λ t r. subst (λ (es : List Entry). (get_or es (t % length es) vacant).pkt ≡ none) (sym e) r;
  };
  same_unack = u;
}

pub size_after : (w v : SendWindow) → Kept w v → 0 < length w.entries → 0 < length v.entries
size_after w v k h = omega (arith, k.keeps.same_size)

per_end-Kept : (w v : SendWindow) (s : Seq) → Kept w v → Kept w (record v { per_end = s })
per_end-Kept w v s k =
    Kept-trans w v (record v { per_end = s }) k
      (counters-Kept v (record v { per_end = s }) refl refl refl refl)

tx_failure-Kept : (w : SendWindow) (c : Bool) → Kept w (if c then tx_failure w else w)
tx_failure-Kept w true = counters-Kept w (tx_failure w) refl refl refl refl
tx_failure-Kept w false = Kept-refl w

gap_round-Kept :
    (env : Env) (t : ℕ) (s : Seq) (w : SendWindow) (o : Option NetPacket)
    → 0 < length w.entries
    → Kept w (gap_round env t s w o).0
gap_round-Kept env t s w none h = per_end-Kept w w (incr s) (Kept-refl w)
gap_round-Kept env t s w (some p) h =
    let v = if ge s w.per_cutoff then tx_failure w else w in
    let k = tx_failure-Kept w (ge s w.per_cutoff) in
    let u = (retransmit env s v).0 in
    let r = Kept-trans w v u k (retransmit-Kept env s v (size_after w v k h)) in
    elim (Bool-cases (ltb (entry w s).sent_at t)) [
      | inl y ↦ rw y (per_end-Kept w u (incr s) r)
      | inr n ↦ rw n (Kept-refl w)
    ]

-- The loops make their rounds on windows that keep these.
pub gap_loop-Kept :
    (env : Env) (t f : ℕ) (s b : Seq) (w : SendWindow)
    → 0 < length w.entries
    → Kept w (gap_loop env t f s b w).0
unfolding gap_loop
gap_loop-Kept env t zero s b w h = Kept-refl w
gap_loop-Kept env t (suc f) s b w h = elim (Bool-cases (lt s b)) [
  | inr e ↦ rw (e, gap_loop) (Kept-refl w)
  | inl e ↦
      let r = if ge s w.per_end then gap_round env t s w (entry w s).pkt else (w, []) in
      let k : Kept w r.0 = elim (Bool-cases (ge s w.per_end)) [
        | inl y ↦ rw y (gap_round-Kept env t s w (entry w s).pkt h)
        | inr n ↦ rw n (Kept-refl w)
      ] in
      rw (e, gap_loop)
        (Kept-trans w r.0 (gap_loop env t f (incr s) b r.0).0 k
          (gap_loop-Kept env t f (incr s) b r.0 (size_after w r.0 k h)))
]

handled-Kept : (s : Seq) (w : SendWindow) → 0 < length w.entries → Kept w (handle_ack s w).0
handled-Kept s w h =
    let r = handle_ack-Handled s w h in record { keeps = r.keeps; same_unack = r.same_unack }

-- A round of a run keeps the window's bounds and frees its number, if that is in the window.
pub record Acked (s : Seq) (w w' : SendWindow) : Type 0 where
  pub kept : Kept w w'
  pub freed : outside w s ≡ false → (entry w' s).pkt ≡ none

below_outside : (s u : Seq) (c : Bool) → ge s u ≡ false → (lt s u || c) ≡ true
unfolding lt ge
below_outside s u c e = ground arith

ack_if-Acked :
    (s : Seq) (w : SendWindow)
    → 0 < length w.entries
    → Acked s w (if ge s w.unack then handle_ack s w else (w, [])).0
ack_if-Acked s w h = elim (Bool-cases (ge s w.unack)) [
  | inl y ↦ rw y (record { kept = handled-Kept s w h; freed = (handle_ack-Handled s w h).freed })
  | inr n ↦ rw n (record {
    kept = Kept-refl w;
    freed = λ o. absurd (cc (o, below_outside s w.unack (ge s (add w.unack w.win)) n));
  })
]

pub run_round-Acked :
    (t : ℕ) (s : Seq) (w : SendWindow) → 0 < length w.entries → Acked s w (run_round t s w).0
run_round-Acked t s w h =
    let r = if ge s w.unack then handle_ack s w else (w, []) in
    let a = ack_if-Acked s w h in
    elim (Bool-cases (ge s r.0.per_end && ltb (entry r.0 s).sent_at t)) [
      | inl y ↦ rw y (record {
        kept =
            Kept-trans w r.0 (record (tx_success r.0) { per_end = incr s }) a.kept
              (counters-Kept r.0 (record (tx_success r.0) { per_end = incr s }) refl refl refl
                refl);
        freed = a.freed;
      })
      | inr n ↦ rw n a
    ]
