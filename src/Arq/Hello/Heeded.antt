-- ===== src/Arq/Hello/Heeded.antt =====
-- What the time master echoes comes back to the node that it is of.
use dragonradio.Prelude.{
  ℕ, suc, ◌≡◌, ◌≢◌, inl, inr, refl, sym, ap, ◌∙◌, subst, true, false, Option, none, some, List, [],
  ◌∷◌, ◌++◌, arith, Bool-cases, if◌then◌else◌, ◌==◌, ==_refl,
}
use mathlib.Core.List.{append-nil}
use dragonradio.Packet.{NetPacket, NodeId, ControlMsg, hello, node_broadcast}
use dragonradio.Arq.Timers.{Local, control_packet}
use dragonradio.Arq.Hello.{
  Stamp, Known, Clocks, echo_loop, handle_ctrl_timestamp_echos, latest, echo, echoes,
  broadcast_hello,
}

-- How often a node occurs.
unfoldable pub occurrences : NodeId → List NodeId → ℕ
occurrences n [] = 0
occurrences n (k ∷ ks) = if k == n then suc (occurrences n ks) else occurrences n ks

-- The last timestamp, if there is one.
pub own : Option Stamp → List Stamp
own none = []
own (some s) = s ∷ []

echo_loop-append :
    (n : NodeId) (xs ys : List ControlMsg) (ss : List Stamp)
    → echo_loop n (xs ++ ys) ss ≡ echo_loop n ys (echo_loop n xs ss)
unfolding echo_loop
echo_loop-append n [] ys ss = refl
echo_loop-append n (x ∷ xs) ys ss = echo_loop-append n xs ys _

echo_loop-echo_other :
    (n k : NodeId) (o : Option Stamp) (ss : List Stamp)
    → (k == n) ≡ false
    → echo_loop n (echo k o) ss ≡ ss
unfolding echo_loop
echo_loop-echo_other n k none ss e = refl
echo_loop-echo_other n k (some s) ss e = rw e refl

echo_loop-echo-own :
    (n : NodeId) (o : Option Stamp) (ss : List Stamp) → echo_loop n (echo n o) ss ≡ ss ++ own o
unfolding echo_loop own
echo_loop-echo-own n none ss = sym (append-nil ss)
echo_loop-echo-own n (some s) ss = rw (==_refl n) refl

module _ (m n : NodeId) (nodes : NodeId → Known) where
  no_more : (k : NodeId) (ks : List NodeId) → (k == n) ≡ true → occurrences n (k ∷ ks) ≢ 0
  unfolding occurrences
  no_more k ks y e = ground arith

  last_one :
      (k : NodeId) (ks : List NodeId)
      → (k == n) ≡ true
      → occurrences n (k ∷ ks) ≡ 1
      → occurrences n ks ≡ 0
  unfolding occurrences
  last_one k ks y e = ground arith

  skip :
      (k : NodeId) (ks : List NodeId) (c : ℕ)
      → (k == n) ≡ false
      → occurrences n (k ∷ ks) ≡ c
      → occurrences n ks ≡ c
  unfolding occurrences
  skip k ks c y e = ground arith

  absent :
      (ns : List NodeId) (ss : List Stamp)
      → occurrences n ns ≡ 0
      → echo_loop n (echoes m nodes ns) ss ≡ ss
  unfolding echoes occurrences echo_loop
  absent [] ss e = refl
  absent (k ∷ ks) ss e = elim (Bool-cases (k == n)) [
    | inl y ↦ absurd (no_more k ks y e)
    | inr y ↦
        let rest : occurrences n ks ≡ 0 = skip k ks 0 y e in
        elim (Bool-cases (k == m)) [
          | inl z ↦ rw z (absent ks ss rest)
          | inr z ↦ rw z (
              echo_loop-append n (echo k (latest (nodes k).timestamps)) (echoes m nodes ks) ss
              ∙ absent ks (echo_loop n (echo k (latest (nodes k).timestamps)) ss) rest
              ∙ echo_loop-echo_other n k (latest (nodes k).timestamps) ss y)
        ]
  ]

  once :
      (ns : List NodeId) (ss : List Stamp)
      → n ≢ m
      → occurrences n ns ≡ 1
      → echo_loop n (echoes m nodes ns) ss ≡ ss ++ own (latest (nodes n).timestamps)
  unfolding echoes occurrences
  once [] ss d e = absurd (omega arith)
  once (k ∷ ks) ss d e = elim (Bool-cases (k == n)) [
    | inl y ↦
        let same : k ≡ n = ground arith in
        let other : (k == m) ≡ false = ground arith in
        let rest : occurrences n ks ≡ 0 = last_one k ks y e in
        let o = latest (nodes k).timestamps in
        rw other (
          echo_loop-append n (echo k o) (echoes m nodes ks) ss
          ∙ absent ks (echo_loop n (echo k o) ss) rest
          ∙ subst
              (λ (t : ℕ).
                echo_loop n (echo t (latest (nodes t).timestamps)) ss
                ≡ ss ++ own (latest (nodes n).timestamps))
              (sym same) (echo_loop-echo-own n (latest (nodes n).timestamps) ss))
    | inr y ↦
        let rest : occurrences n ks ≡ 1 = skip k ks 1 y e in
        elim (Bool-cases (k == m)) [
          | inl z ↦ rw z (once ks ss d rest)
          | inr z ↦
              let o = latest (nodes k).timestamps in
              rw z (
                echo_loop-append n (echo k o) (echoes m nodes ks) ss
                ∙ ap (echo_loop n (echoes m nodes ks)) (echo_loop-echo_other n k o ss y)
                ∙ once ks ss d rest)
        ]
  ]

-- The message of a hello packet that a node reads as an echo is that of its own clock: when the time
-- master says hello, a node that the master knows once, and is not the master, adds to its echoes the
-- last timestamp that the master had of it, if there is one, and no other. The master can transmit and
-- has a network queue.
pub broadcast_hello_echo :
    (l : Local) (ns : List NodeId) (c : Clocks) (n : NodeId) (ss : List Stamp)
    → l.has_queue ≡ true
    → l.can_transmit ≡ true
    → n ≢ l.my_id
    → occurrences n ns ≡ 1
    → (p : NetPacket) × (broadcast_hello l (some l.my_id) ns c ≡ some p)
      × (handle_ctrl_timestamp_echos n (some l.my_id) p.curhop p.control ss
          ≡ ss ++ own (latest (c.nodes n).timestamps))
unfolding broadcast_hello handle_ctrl_timestamp_echos echo_loop
broadcast_hello_echo l ns c n ss q t d o =
    let m = l.my_id in
    let apart : (m == n) ≡ false = ground arith in
    let all = hello (c.nodes m).is_gateway ∷ echoes m c.nodes ns in
    (
      record (control_packet l node_broadcast all) { mcsidx = l.mcsidx_broadcast },
      rw (q, t, ==_refl m, broadcast_hello) refl,
      rw (apart, ==_refl m, handle_ctrl_timestamp_echos) (once m n c.nodes ns ss d o),
    )
