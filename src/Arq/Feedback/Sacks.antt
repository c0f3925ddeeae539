-- ===== src/Arq/Feedback/Sacks.antt =====
-- The numbers that the selective ACKs of a receive window name, before those that do not fit the packet
-- are left out.
use mathlib.Core.List.{append-nil, append_assoc}
use dragonradio.Prelude.{
  ℕ, zero, suc, ◌+◌, ◌≤◌, ◌<◌, ◌≡◌, inl, inr, refl, sym, ◌∙◌, ap, Bool, true, false, List, [], ◌∷◌,
  ◌++◌, arith, if◌then◌else◌, Bool-cases,
}
use dragonradio.Seq.{Seq, diff, lt, le, add, incr}
use dragonradio.Packet.{
  ControlMsg, hello, timestamp, timestamp_echo, receiver_stats, nak, selective_ack, set_unack,
}
use dragonradio.Arq.Recv.{RecvWindow, entry}
use dragonradio.Arq.Feedback.{Run, sack_round, sack_loop, close_run, mark_end, sacks}

-- The `k` numbers from `b` on.
abbrev pub upto : ℕ → Seq → List Seq
upto zero b = []
upto (suc k) b = b ∷ upto k (incr b)

-- The numbers that selective ACKs name.
abbrev pub acked : List ControlMsg → List Seq
acked [] = []
acked (selective_ack b e ∷ ms) = upto (diff e b) b ++ acked ms
acked (hello g ∷ ms) = acked ms
acked (timestamp t ∷ ms) = acked ms
acked (timestamp_echo n s t ∷ ms) = acked ms
acked (receiver_stats e t ∷ ms) = acked ms
acked (nak s ∷ ms) = acked ms
acked (set_unack u ∷ ms) = acked ms

-- Those of the `k` numbers from `s` on that the window has received.
abbrev pub received_of : RecvWindow → ℕ → Seq → List Seq
received_of w zero s = []
received_of w (suc k) s = (if (entry w s).received then s ∷ [] else []) ++ received_of w k (incr s)

pub acked-append : (ms ns : List ControlMsg) → acked (ms ++ ns) ≡ acked ms ++ acked ns
acked-append [] ns = refl
acked-append (selective_ack b e ∷ ms) ns =
    ap (λ (t : List Seq). upto (diff e b) b ++ t) (acked-append ms ns)
    ∙ sym (append_assoc (upto (diff e b) b) (acked ms) (acked ns))
acked-append (hello g ∷ ms) ns = acked-append ms ns
acked-append (timestamp t ∷ ms) ns = acked-append ms ns
acked-append (timestamp_echo n s t ∷ ms) ns = acked-append ms ns
acked-append (receiver_stats e t ∷ ms) ns = acked-append ms ns
acked-append (nak s ∷ ms) ns = acked-append ms ns
acked-append (set_unack u ∷ ms) ns = acked-append ms ns

upto_last : (k b c : ℕ) → c < 65536 → c ≡ add b k → b < 65536 → upto (suc k) b ≡ upto k b ++ c ∷ []
upto_last zero b c hc e hb = ap (λ (t : ℕ). t ∷ []) (omega (arith, e))
upto_last (suc k) b c hc e hb =
    ap (◌∷◌ b) (upto_last k (incr b) c hc (omega (arith, e)) (omega arith))

-- The numbers of the run that is open.
abbrev pending : Run → List Seq
pending r = if r.in_run then upto (diff (incr r.last) r.first) r.first else []

-- An open run ends just before `s` and is at most `m` numbers long.
record Open (m : ℕ) (s : Seq) (r : Run) : Type 0 where
  at_end : r.in_run ≡ true → incr r.last ≡ s
  first_lt : r.in_run ≡ true → r.first < 65536
  short : r.in_run ≡ true → diff s r.first ≤ m

run_grows :
    (m s : ℕ) (r : Run)
    → s < 65536
    → m < 65535
    → incr r.last ≡ s
    → r.first < 65536
    → diff s r.first ≤ m
    → upto (diff (incr s) r.first) r.first ≡ upto (diff (incr r.last) r.first) r.first ++ s ∷ []
run_grows m s r hs hm e hf short =
    ap (λ (t : ℕ). upto t r.first) (longer s r.first m hs hf hm short)
    ∙ upto_last (diff s r.first) r.first s hs (back s r.first hs hf) hf
    ∙ ap (λ (t : ℕ). upto (diff t r.first) r.first ++ s ∷ []) (sym e)
  where
    longer :
        (s b m : ℕ)
        → s < 65536
        → b < 65536
        → m < 65535
        → diff s b ≤ m
        → diff (incr s) b ≡ suc (diff s b)
    longer s b m h0 h1 h2 h3 = omega arith

    back : (s b : ℕ) → s < 65536 → b < 65536 → s ≡ add b (diff s b)
    back s b h0 h1 = omega arith

-- One round: what it appends and the run it leaves name what was named before and `s`, if received.
record Round (m : ℕ) (s : Seq) (received : Bool) (r : Run) (out : List ControlMsg × Run)
    : Type 0 where
  open_run : Open (suc m) (incr s) out.1
  names : acked out.0 ++ pending out.1 ≡ pending r ++ (if received then s ∷ [] else [])

one_long : (s : ℕ) → s < 65536 → diff (incr s) s ≡ 1
one_long s h = omega arith

Round-of :
    (m : ℕ) (s : Seq) (received : Bool) (b : Bool) (f l : Seq)
    → s < 65536
    → m < 65535
    → Open m s (record { in_run = b; first = f; last = l })
    → Round m s received
        (record { in_run = b; first = f; last = l })
        (sack_round received s (record { in_run = b; first = f; last = l }))
Round-of m s true true f l hs hm o = record {
  open_run = record {
    at_end = λ _. refl;
    first_lt = λ _. o.first_lt refl;
    short = λ _. omega (arith, o.short refl, o.first_lt refl);
  };
  names =
      run_grows m s (record { in_run = true; first = f; last = l }) hs hm (o.at_end refl)
        (o.first_lt refl) (o.short refl);
}
Round-of m s true false f l hs hm o = record {
  open_run = record {
    at_end = λ _. refl;
    first_lt = λ _. hs;
    short = λ _. omega (arith, one_long s hs);
  };
  names = ap (λ (t : ℕ). upto t s) (one_long s hs);
}
Round-of m s false true f l hs hm o = record {
  open_run = record {
    at_end = λ t. absurd (cc t);
    first_lt = λ t. absurd (cc t);
    short = λ t. absurd (cc t);
  };
  names = append-nil (upto (diff (incr l) f) f ++ []);
}
Round-of m s false false f l hs hm o = record {
  open_run = record {
    at_end = λ t. absurd (cc t);
    first_lt = λ t. absurd (cc t);
    short = λ t. absurd (cc t);
  };
  names = refl;
}

loop_goes :
    (f s mx : ℕ) → s < 65536 → f < 32768 → incr mx ≡ add s (suc f) → mx < 65536 → le s mx ≡ true
unfolding le
loop_goes f s mx hs hf e hm = ground arith

-- The loop of `f` rounds up to `max`: what it appends and the run it leaves open name what was named
-- before and the numbers that it found received.
sack_loop_lem :
    (f m : ℕ) (s : Seq) (w : RecvWindow) (r : Run)
    → s < 65536
    → w.max < 65536
    → f ≤ 32768
    → m + f < 65536
    → incr w.max ≡ add s f
    → Open m s r
    → acked (sack_loop f s w r).0 ++ pending (sack_loop f s w r).1 ≡ pending r ++ received_of w f s
unfolding sack_loop
sack_loop_lem zero m s w r hs hw hf hm e o = sym (append-nil (pending r))
sack_loop_lem (suc f) m s w r hs hw hf hm e o =
    let b = (entry w s).received in
    let now = sack_round b s r in
    let one = Round-of m s b r.in_run r.first r.last hs (omega arith) o in
    let rest = sack_loop f (incr s) w now.1 in
    let ih =
      sack_loop_lem f (suc m) (incr s) w now.1 (omega arith) hw (omega arith) (omega arith)
        (omega (arith, e)) one.open_run in
    rw (loop_goes f s w.max hs (omega arith) e hw, sack_loop)
      (ap (λ (t : List Seq). t ++ pending rest.1) (acked-append now.0 rest.0)
        ∙ append_assoc (acked now.0) (acked rest.0) (pending rest.1)
        ∙ ap (λ (t : List Seq). acked now.0 ++ t) ih
        ∙ sym (append_assoc (acked now.0) (pending now.1) (received_of w f (incr s)))
        ∙ ap (λ (t : List Seq). t ++ received_of w f (incr s)) one.names
        ∙ append_assoc (pending r) (if b then s ∷ [] else []) (received_of w f (incr s)))

acked-close_run : (r : Run) → acked (close_run r) ≡ pending r
acked-close_run r = elim (Bool-cases r.in_run) [
  | inl e ↦ simp e (append-nil (upto (diff (incr r.last) r.first) r.first))
  | inr e ↦ simp e refl
]

acked-mark_end : (w : RecvWindow) (r : Run) → acked (mark_end w r) ≡ []
acked-mark_end w r = elim (Bool-cases (lt r.last w.max)) [
  | inl e ↦ rw e (ap (λ (t : ℕ). upto t (incr w.max) ++ []) (same (incr w.max)))
  | inr e ↦ rw e refl
]
  where
    same : (a : ℕ) → diff a a ≡ 0
    same a = omega arith

-- The selective ACKs of a window, before any is left out, name exactly the numbers that it has received
-- beyond `ack`, each once and in order.
pub acked-sacks :
    (w : RecvWindow)
    → w.ack < 65536
    → w.max < 65536
    → diff w.max w.ack < 32768
    → acked (sacks w) ≡ received_of w (diff w.max w.ack) (incr w.ack)
unfolding sacks
acked-sacks w ha hm near =
    let start : Run = record { in_run = false; first = w.ack; last = w.ack } in
    let f = diff w.max w.ack in
    let done = sack_loop f (incr w.ack) w start in
    acked-append done.0 (close_run done.1 ++ mark_end w done.1)
    ∙ ap (λ (t : List Seq). acked done.0 ++ t)
        (acked-append (close_run done.1) (mark_end w done.1)
          ∙ ap (λ (t : List Seq). acked (close_run done.1) ++ t) (acked-mark_end w done.1)
          ∙ append-nil (acked (close_run done.1))
          ∙ acked-close_run done.1)
    ∙ sack_loop_lem f 0 (incr w.ack) w start (omega arith) hm (omega arith) (omega arith)
        (upper w.ack w.max ha hm)
        (record {
          at_end = λ t. absurd (cc t);
          first_lt = λ t. absurd (cc t);
          short = λ t. absurd (cc t);
        })
  where
    upper : (a m : ℕ) → a < 65536 → m < 65536 → incr m ≡ add (incr a) (diff m a)
    upper a m h0 h1 = omega arith
