-- ===== src/Arq/Recv/Filed.antt =====
-- The entries of the receive window: each array place is free or holds the packet of one sequence
-- number of the window. The array is indexed by the sequence number modulo the window size.
use Prim.Native.Nat.{◌∣◌}
use native.Mathlib.Nat.{mod-lt}
use native.Mathlib.Decide.{dec_lt}
use dragonradio.Prelude.{
  ℕ, zero, suc, ◌+◌, ◌-◌, ◌%◌, ◌<◌, ◌≡◌, ◌≢◌, sym, ◌∙◌, ap, subst, true, false, none, List, arith,
  length, get_or, set, length-set, get_or-set_self, get_or-set_ne, wrap_distinct, ℕ_discrete,
}
use dragonradio.Seq.{le, add, incr}
use dragonradio.Packet.{RadioPacket}
use dragonradio.Arq.Recv.{Entry, cleared, holding}

-- An entry whose packet was sent on ahead of a hole.
abbrev pub sent_ahead : Entry
sent_ahead = record { received = true; delivered = true; pkt = none }

-- What place `k` of the array may hold, for a window of `n` sequence numbers from `a` on of which
-- none beyond `mx` has come.
pub data Slot (a n mx k : ℕ) (e : Entry) : Type 0 where
  free : e ≡ cleared → Slot a n mx k e
  early :
      (i : ℕ) → i < n → add a i % n ≡ k → le (add a i) mx ≡ true → e ≡ sent_ahead → Slot a n mx k e
  kept :
      (i : ℕ) (p : RadioPacket)
      → i < n
      → add a i % n ≡ k
      → le (add a i) mx ≡ true
      → p.seq ≡ add a i
      → e ≡ holding p
      → Slot a n mx k e

pub record Filed (a n mx : ℕ) (es : List Entry) : Type 0 where
  pub size : length es ≡ n
  pub divides : n ∣ 65536
  pub pos : 0 < n
  pub small : n < 32768
  pub ack_lt : a < 65536
  pub max_lt : mx < 65536
  pub slots : (k : ℕ) → Slot a n mx k (get_or es k cleared)

-- Two offsets within the window that share a place are equal.
slot_lt : (n a i j : ℕ) → n ∣ 65536 → i < j → j < n → add a i % n ≢ add a j % n
slot_lt n a i j d h hj e =
    wrap_distinct 65536 n (add a i) (j - i) d (omega arith) (omega arith)
      (ap (λ (t : ℕ). t % n) shift ∙ sym e)
  where
    shift : (add a i + (j - i)) % 65536 ≡ add a j
    shift = omega arith

pub slot_inj : (n a i j : ℕ) → n ∣ 65536 → i < n → j < n → add a i % n ≡ add a j % n → i ≡ j
slot_inj n a i j d hi hj e = elim (dec_lt i j) [
  | yes p ↦ absurd (slot_lt n a i j d p hj e)
  | no p ↦ elim (dec_lt j i) [
    | yes q ↦ absurd (slot_lt n a j i d q hi (sym e))
    | no q ↦ omega arith
  ]
]

-- Clearing any place keeps the rest as it was.
clear-Slot :
    (a n mx : ℕ) (es : List Entry) (j k : ℕ)
    → j < length es
    → Slot a n mx k (get_or es k cleared)
    → Slot a n mx k (get_or (set es j cleared) k cleared)
clear-Slot a n mx es j k h s = elim (ℕ_discrete j k) [
  | yes e ↦ free (
      subst (λ t. get_or (set es j cleared) t cleared ≡ cleared) e
        (get_or-set_self es j cleared cleared h))
  | no ne ↦ subst (Slot a n mx k) (sym (get_or-set_ne es j k cleared cleared ne)) s
]

pub clear-Filed :
    (a n mx : ℕ) (es : List Entry) (j : ℕ)
    → j < n
    → Filed a n mx es
    → Filed a n mx (set es j cleared)
clear-Filed a n mx es j h v = record {
  size = length-set es j cleared ∙ v.size;
  divides = v.divides;
  pos = v.pos;
  small = v.small;
  ack_lt = v.ack_lt;
  max_lt = v.max_lt;
  slots = λ k. clear-Slot a n mx es j k (omega (arith, v.size)) (v.slots k);
}

-- The place of the first number of the window falls free when the window moves past it.
shift-Slot :
    (a n mx k : ℕ) (e : Entry)
    → a < 65536
    → (a % n ≡ k → e.received ≡ false)
    → Slot a n mx k e
    → Slot (incr a) n mx k e
shift-Slot a n mx k e ha hole (free c) = free c
shift-Slot a n mx k e ha hole (early zero hi hk hm he) =
    absurd (cc (hole (ap (λ (t : ℕ). t % n) (omega arith) ∙ hk), ap (λ (t : Entry). t.received) he))
shift-Slot a n mx k e ha hole (early (suc i) hi hk hm he) =
    let same : add (incr a) i ≡ add a (suc i) = omega arith in
    early i (omega arith) (rw same hk) (rw same hm) he
shift-Slot a n mx k e ha hole (kept zero p hi hk hm hp he) =
    absurd (cc (hole (ap (λ (t : ℕ). t % n) (omega arith) ∙ hk), ap (λ (t : Entry). t.received) he))
shift-Slot a n mx k e ha hole (kept (suc i) p hi hk hm hp he) =
    let same : add (incr a) i ≡ add a (suc i) = omega arith in
    kept i p (omega arith) (rw same hk) (rw same hm) (rw same hp) he

pub shift-Filed :
    (a n mx : ℕ) (es : List Entry)
    → (get_or es (a % n) cleared).received ≡ false
    → Filed a n mx es
    → Filed (incr a) n mx es
shift-Filed a n mx es hole v = record {
  size = v.size;
  divides = v.divides;
  pos = v.pos;
  small = v.small;
  ack_lt = omega arith;
  max_lt = v.max_lt;
  slots = λ k.
      shift-Slot a n mx k (get_or es k cleared) v.ack_lt
        (λ e. subst (λ t. (get_or es t cleared).received ≡ false) e hole) (v.slots k);
}

-- `recvw[seq].reset()` and `++seq`, at the first number of the window.
pub release-Filed :
    (a n mx : ℕ) (es : List Entry)
    → Filed a n mx es
    → Filed (incr a) n mx (set es (a % length es) cleared)
release-Filed a n mx es v =
    let place : a % n < n = mod-lt a v.pos in
    rw v.size (
      shift-Filed a n mx (set es (a % n) cleared)
        (ap (λ (t : Entry). t.received)
          (get_or-set_self es (a % n) cleared cleared (omega (arith, v.size))))
        (clear-Filed a n mx es (a % n) place v))

-- What the place of an offset of the window holds is the packet of that offset.
pub data At (mx s : ℕ) (e : Entry) : Type 0 where
  at_free : e ≡ cleared → At mx s e
  at_early : le s mx ≡ true → e ≡ sent_ahead → At mx s e
  at_kept : (p : RadioPacket) → le s mx ≡ true → p.seq ≡ s → e ≡ holding p → At mx s e

At-Slot :
    (a n mx i : ℕ) (e : Entry) → n ∣ 65536 → i < n → Slot a n mx (add a i % n) e → At mx (add a i) e
At-Slot a n mx i e d hi (free c) = at_free c
At-Slot a n mx i e d hi (early j hj hk hm he) =
    let same : j ≡ i = slot_inj n a j i d hj hi hk in
    at_early (subst (λ t. le (add a t) mx ≡ true) same hm) he
At-Slot a n mx i e d hi (kept j p hj hk hm hp he) =
    let same : j ≡ i = slot_inj n a j i d hj hi hk in
    at_kept p (subst (λ t. le (add a t) mx ≡ true) same hm) (subst (λ t. p.seq ≡ add a t) same hp)
      he

pub entry-At :
    (a : ℕ) {n mx : ℕ} {es : List Entry} (i : ℕ)
    → Filed a n mx es
    → i < n
    → At mx (add a i) (get_or es (add a i % length es) cleared)
entry-At a {n} {mx} {es} i v hi =
    rw v.size
      (At-Slot a n mx i (get_or es (add a i % n) cleared) v.divides hi (v.slots (add a i % n)))

pub head-At :
    {a n mx : ℕ} {es : List Entry} → Filed a n mx es → At mx a (get_or es (a % length es) cleared)
head-At {a} {n} {mx} {es} v =
    let same : add a 0 ≡ a = omega (arith, v.ack_lt) in
    subst (λ t. At mx t (get_or es (t % length es) cleared)) same (entry-At a 0 v v.pos)
