-- ===== src/Arq/Recv/Fill.antt =====
-- Filling a place of the receive window, raising `max`, and moving an empty window anywhere.
use native.Mathlib.Nat.{mod-lt}
use dragonradio.Prelude.{
  ℕ, ◌%◌, ◌<◌, ◌≡◌, sym, ◌∙◌, subst, true, false, List, arith, length, get_or, set, length-set,
  get_or-set_self, get_or-set_ne, ℕ_discrete,
}
use dragonradio.Seq.{lt, le, gt, add}
use dragonradio.Arq.Recv.{Entry, cleared}
use dragonradio.Arq.Recv.Filed.{Slot, free, early, kept, Filed}

-- Storing an entry that its place may hold.
pub fill-Filed :
    (a n mx i : ℕ) (es : List Entry) (e : Entry)
    → i < n
    → Slot a n mx (add a i % n) e
    → Filed a n mx es
    → Filed a n mx (set es (add a i % length es) e)
fill-Filed a n mx i es e hi s v = record {
  size = length-set es (add a i % length es) e ∙ v.size;
  divides = v.divides;
  pos = v.pos;
  small = v.small;
  ack_lt = v.ack_lt;
  max_lt = v.max_lt;
  slots = rw v.size place;
}
  where
    j : ℕ
    j = add a i % n

    j_lt : j < length es
    j_lt = subst (λ (t : ℕ). j < t) (sym v.size) (mod-lt (add a i) v.pos)

    place : (k : ℕ) → Slot a n mx k (get_or (set es j e) k cleared)
    place k = elim (ℕ_discrete j k) [
      | yes q ↦
          subst (λ t. Slot a n mx t (get_or (set es j e) t cleared)) q
            (subst (Slot a n mx j) (sym (get_or-set_self es j e cleared j_lt)) s)
      | no ne ↦ subst (Slot a n mx k) (sym (get_or-set_ne es j k e cleared ne)) (v.slots k)
    ]

-- `max` lies before the end of the window, by less than half the range.
abbrev pub Bounded : ℕ → ℕ → ℕ → Type 0
Bounded a n mx = lt mx (add a n) ≡ true

raise-le :
    (a n mx s i : ℕ)
    → a < 65536
    → mx < 65536
    → s < 65536
    → n < 32768
    → i < n
    → Bounded a n mx
    → gt s mx ≡ true
    → lt s (add a n) ≡ true
    → le (add a i) mx ≡ true
    → le (add a i) s ≡ true
unfolding lt le gt
raise-le a n mx s i ha hm hs hn hi b g l h = ground arith

raise-Slot :
    (a n mx s k : ℕ) (e : Entry)
    → a < 65536
    → mx < 65536
    → s < 65536
    → n < 32768
    → Bounded a n mx
    → gt s mx ≡ true
    → lt s (add a n) ≡ true
    → Slot a n mx k e
    → Slot a n s k e
raise-Slot a n mx s k e ha hm hs hn b g l (free c) = free c
raise-Slot a n mx s k e ha hm hs hn b g l (early i hi hk h he) =
    early i hi hk (raise-le a n mx s i ha hm hs hn hi b g l h) he
raise-Slot a n mx s k e ha hm hs hn b g l (kept i p hi hk h hp he) =
    kept i p hi hk (raise-le a n mx s i ha hm hs hn hi b g l h) hp he

pub raise-Filed :
    (a n mx s : ℕ) (es : List Entry)
    → s < 65536
    → Bounded a n mx
    → gt s mx ≡ true
    → lt s (add a n) ≡ true
    → Filed a n mx es
    → Filed a n s es
raise-Filed a n mx s es hs b g l v = record {
  size = v.size;
  divides = v.divides;
  pos = v.pos;
  small = v.small;
  ack_lt = v.ack_lt;
  max_lt = hs;
  slots = λ k.
      raise-Slot a n mx s k (get_or es k cleared) v.ack_lt v.max_lt hs v.small b g l (v.slots k);
}

-- With `max` before the first number of the window there is nothing in it.
empty-Slot :
    (a n mx k b : ℕ) (e : Entry)
    → ((i : ℕ) → i < n → le (add a i) mx ≡ false)
    → Slot a n mx k e
    → Slot b n mx k e
empty-Slot a n mx k b e none_in (free c) = free c
empty-Slot a n mx k b e none_in (early i hi hk h he) = absurd (cc (none_in i hi))
empty-Slot a n mx k b e none_in (kept i p hi hk h hp he) = absurd (cc (none_in i hi))

pub empty-Filed :
    (a n mx b : ℕ) (es : List Entry)
    → b < 65536
    → ((i : ℕ) → i < n → le (add a i) mx ≡ false)
    → Filed a n mx es
    → Filed b n mx es
empty-Filed a n mx b es hb none_in v = record {
  size = v.size;
  divides = v.divides;
  pos = v.pos;
  small = v.small;
  ack_lt = hb;
  max_lt = v.max_lt;
  slots = λ k. empty-Slot a n mx k b (get_or es k cleared) none_in (v.slots k);
}
