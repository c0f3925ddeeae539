-- ===== src/SimpleQueue/Pop.antt =====
-- `SimpleQueue::pop` as a whole: what it may return, and when it returns nothing.
use dragonradio.Prelude.{
  ℕ, ◌≡◌, ◌≢◌, refl, sym, subst, ap, ◌∙◌, inl, inr, Bool, true, false, not, ◌&&◌, ◌||◌, Option,
  none, some, List, [], ◌∷◌, ◌++◌, Bool-cases, ◌⊎◌, ◌==◌, arith,
}
use dragonradio.Packet.{should_drop, node_broadcast}
use dragonradio.SimpleQueue.{
  SimpleQueue, Item, QueueType, fifo, lifo, can_pop, scan, reverse, scan_lifo, scan_q, look_further,
  pop, is_open,
}
use dragonradio.SimpleQueue.Scan.{passed, Scanned, Taken, scan-Scanned}

and_assoc : (a b c : Bool) → a && (b && c) ≡ (a && b) && c
and_assoc true b c = refl
and_assoc false b c = refl

and_flip : (a b : Bool) → b && (a && true) ≡ a && b
and_flip true true = refl
and_flip true false = refl
and_flip false true = refl
and_flip false false = refl

passed_append :
    (s : SimpleQueue) (now : ℕ) (is js : List Item)
    → passed s now (is ++ js) ≡ passed s now is && passed s now js
passed_append s now [] js = refl
passed_append s now (i ∷ is) js =
    rw (passed_append s now is js)
      (and_assoc (should_drop i.pkt now || not (can_pop s i)) (passed s now is) (passed s now js))

passed-reverse :
    (s : SimpleQueue) (now : ℕ) (is : List Item) → passed s now (reverse is) ≡ passed s now is
passed-reverse s now [] = refl
passed-reverse s now (i ∷ is) =
    rw (passed_append s now (reverse is) (i ∷ []), passed-reverse s now is)
      (and_flip (should_drop i.pkt now || not (can_pop s i)) (passed s now is))

-- What one loop may do, told without its order.
record Looked (s : SimpleQueue) (now : ℕ) (is : List Item) (r : Option Item × List Item)
    : Type 0 where
  sound : (i : Item) → r.0 ≡ some i → (should_drop i.pkt now ≡ false) × (can_pop s i ≡ true)
  complete : r.0 ≡ none → passed s now is ≡ true

Looked-of :
    (s : SimpleQueue) (now : ℕ) (is : List Item) (r : Option Item × List Item)
    → Scanned s now is r
    → Looked s now is r
Looked-of s now is (none, rest) h = record { sound = λ i e. absurd (cc e); complete = λ _. h.0 }
Looked-of s now is (some j, rest) h = record {
  sound = λ i e. (cc (e, h.live), cc (e, h.may_go));
  complete = λ e. absurd (cc e);
}

scan_q-Looked : (s : SimpleQueue) (now : ℕ) (t : QueueType) → Looked s now s.q (scan_q s now t)
unfolding scan_q scan_lifo
scan_q-Looked s now fifo = Looked-of s now s.q (scan s now s.q) (scan-Scanned s now s.q)
scan_q-Looked s now lifo =
    let h =
      Looked-of s now (reverse s.q) (scan s now (reverse s.q)) (scan-Scanned s now (reverse s.q)) in
    record {
      sound = λ i e. h.sound i e;
      complete = λ e. sym (passed-reverse s now s.q) ∙ h.complete e;
    }

further_sound :
    (s : SimpleQueue) (now : ℕ) (r : Option Item × List Item)
    → Looked s now s.hiq r
    → (i : Item) → (look_further s now r).0 ≡ some i
    → (should_drop i.pkt now ≡ false) × (can_pop s i ≡ true)
further_sound s now (some j, hiq) h i e = h.sound i e
further_sound s now (none, hiq) h i e = (scan_q-Looked s now s.queue_type).sound i e

further_complete :
    (s : SimpleQueue) (now : ℕ) (r : Option Item × List Item)
    → Looked s now s.hiq r
    → (look_further s now r).0 ≡ none
    → (passed s now s.hiq ≡ true) × (passed s now s.q ≡ true)
further_complete s now (some j, hiq) h e = absurd (cc e)
further_complete s now (none, hiq) h e =
    (h.complete refl, (scan_q-Looked s now s.queue_type).complete e)

hiq-Looked : (s : SimpleQueue) (now : ℕ) → Looked s now s.hiq (scan s now s.hiq)
hiq-Looked s now = Looked-of s now s.hiq (scan s now s.hiq) (scan-Scanned s now s.hiq)

pop_runs :
    (now : ℕ) (s : SimpleQueue)
    → s.kicked ≡ false
    → s.done ≡ false
    → pop now s ≡ look_further s now (scan s now s.hiq)
unfolding pop
pop_runs now s k d = simp (k, d) refl

pop_kicked : (now : ℕ) (s : SimpleQueue) → s.kicked ≡ true → (pop now s).0 ≡ none
unfolding pop
pop_kicked now s k = simp k refl

pop_done : (now : ℕ) (s : SimpleQueue) → s.kicked ≡ false → s.done ≡ true → (pop now s).0 ≡ none
unfolding pop
pop_done now s k d = simp (k, d) refl

popped_may_go :
    (now : ℕ) (s : SimpleQueue) (i : Item)
    → (pop now s).0 ≡ some i
    → (should_drop i.pkt now ≡ false) × (can_pop s i ≡ true)
popped_may_go now s i e = elim (Bool-cases s.kicked) [
  | inl k ↦ absurd (cc (e, pop_kicked now s k))
  | inr k ↦ elim (Bool-cases s.done) [
    | inl d ↦ absurd (cc (e, pop_done now s k d))
    | inr d ↦
        further_sound s now (scan s now s.hiq) (hiq-Looked s now) i
          (ap (λ (t : Option Item × SimpleQueue). t.0) (sym (pop_runs now s k d)) ∙ e)
  ]
]

may_go_why :
    (s : SimpleQueue) (i : Item)
    → can_pop s i ≡ true
    → (i.pkt.nexthop ≡ node_broadcast)
      ⊎ (i.pkt.has_seq ≡ true)
      ⊎ (is_open (s.send_window_status i.pkt.nexthop) ≡ true)
unfolding can_pop
may_go_why s i e = elim (Bool-cases (i.pkt.nexthop == node_broadcast)) [
  | inl b ↦ inl (ground arith)
  | inr b ↦ elim (Bool-cases i.pkt.has_seq) [
    | inl h ↦ inr (inl h)
    | inr h ↦ inr (inr (ground arith))
  ]
]

-- A packet that `pop` returns need not be dropped, and it is a broadcast, or it already has a
-- sequence number, or the send window of its next hop is open, whatever the queue's type.
pub pop_sound :
    (now : ℕ) (s : SimpleQueue) (i : Item)
    → (pop now s).0 ≡ some i
    → (should_drop i.pkt now ≡ false)
      × ((i.pkt.nexthop ≡ node_broadcast)
          ⊎ (i.pkt.has_seq ≡ true)
          ⊎ (is_open (s.send_window_status i.pkt.nexthop) ≡ true))
pop_sound now s i e = let (live, may_go) = popped_may_go now s i e in (live, may_go_why s i may_go)

-- When `pop` of a queue that is neither kicked nor stopped returns nothing, then every packet of
-- both lists is late or waits for its window, whatever the queue's type.
pub pop_complete :
    (now : ℕ) (s : SimpleQueue)
    → s.kicked ≡ false
    → s.done ≡ false
    → (pop now s).0 ≡ none
    → (passed s now s.hiq ≡ true) × (passed s now s.q ≡ true)
pop_complete now s k d e =
    further_complete s now (scan s now s.hiq) (hiq-Looked s now)
      (ap (λ (t : Option Item × SimpleQueue). t.0) (sym (pop_runs now s k d)) ∙ e)

-- What `pop` does to the network queue when nothing of the high-priority queue may go.
further_fifo :
    (s : SimpleQueue) (now : ℕ) (r : Option Item × List Item)
    → passed s now s.hiq ≡ true
    → s.queue_type ≡ fifo
    → Scanned s now s.hiq r
    → Scanned s now s.q ((look_further s now r).0, (look_further s now r).1.q)
unfolding scan_q
further_fifo s now (some j, hiq) p t h = absurd (taken_not_passed s now s.hiq j hiq h p)
  where
    taken_not_passed :
        (s : SimpleQueue) (now : ℕ) (is : List Item) (i : Item) (rest : List Item)
        → Taken s now is i rest
        → passed s now is ≢ true
    taken_not_passed s now is i rest h p =
        let q = passed_append s now h.before (i ∷ h.after) in
        cc (p, h.split, q, h.first, h.live, h.may_go)
further_fifo s now (none, hiq) p t h = simp t (scan-Scanned s now s.q)

-- In a first-in-first-out queue with nothing to send at high priority, `pop` takes the network
-- queue's first packet that need not be dropped and may go, and keeps the others in order.
pub pop-Scanned :
    (now : ℕ) (s : SimpleQueue)
    → s.kicked ≡ false
    → s.done ≡ false
    → s.queue_type ≡ fifo
    → passed s now s.hiq ≡ true
    → Scanned s now s.q ((pop now s).0, (pop now s).1.q)
pop-Scanned now s k d t p =
    subst (λ (r : Option Item × SimpleQueue). Scanned s now s.q (r.0, r.1.q))
      (sym (pop_runs now s k d))
      (further_fifo s now (scan s now s.hiq) p t (scan-Scanned s now s.hiq))
