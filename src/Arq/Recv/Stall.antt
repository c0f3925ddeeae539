-- ===== src/Arq/Recv/Stall.antt =====
-- A set-unack message that moves a receive window onto a packet that has already arrived.
use dragonradio.Prelude.{
  ℕ, zero, suc, ◌%◌, ◌<◌, ◌≡◌, ◌≢◌, refl, sym, ◌∙◌, ap, subst, Bool, true, false, List, [], ◌∷◌,
  ◌++◌, arith, length, get_or, set, length-set, get_or-set_ne,
}
use dragonradio.Seq.{Seq, diff, lt, gt, ge, add, incr}
use dragonradio.Packet.{RadioPacket, set_unack}
use dragonradio.Arq.Recv.{
  RecvWindow, Entry, cleared, entry, put, release_loop, set_unack_to, handle_set_unack, recv_opened,
  recv_data,
}
use dragonradio.Arq.Recv.Filed.{Filed, slot_inj, release-Filed}
use dragonradio.Arq.Recv.Loops.{IsValid, lt_of_diff, release_loop-Filed}
use dragonradio.Arq.Recv.Receive.{head_in, recv_opened_duplicate}
use dragonradio.Arq.Recv.Order.{run}

-- Releasing one number of the window leaves the place of a later one.
entry-put :
    (seq next f : ℕ) (w : RecvWindow)
    → Filed seq w.win w.max w.entries
    → next < 65536
    → diff next seq ≡ suc f
    → suc f < w.win
    → entry (put w seq cleared) next ≡ entry w next
entry-put seq next f w v hn e h =
    let es = w.entries in
    let other : seq % length es ≢ next % length es = λ same. absurd (
      omega (
        arith,
        slot_inj w.win seq 0 (suc f) v.divides (omega arith) h (
            subst (λ n. add seq 0 % n ≡ add seq (suc f) % n) v.size
              (ap (λ t. t % length es) first ∙ same ∙ ap (λ t. t % length es) last)),
      )) in
    ap (λ n. get_or (set es (seq % length es) cleared) (next % n) cleared)
      (length-set es (seq % length es) cleared)
    ∙ get_or-set_ne es (seq % length es) (next % length es) cleared cleared other
  where
    first : add seq 0 ≡ seq
    first = omega (arith, v.ack_lt)

    last : next ≡ add seq (suc f)
    last = omega (arith, v.ack_lt, hn, e)

release_loop-entry :
    (f seq next : ℕ) (w : RecvWindow)
    → Filed seq w.win w.max w.entries
    → next < 65536
    → diff next seq ≡ f
    → f < w.win
    → entry (release_loop f seq next w) next ≡ entry w next
unfolding release_loop
release_loop-entry zero seq next w v hn e h = refl
release_loop-entry (suc f) seq next w v hn e h =
    rw (lt_of_diff seq next f v.ack_lt hn e (omega (arith, v.small)), release_loop)
      (release_loop-entry f (incr seq) next (put w seq cleared)
          (release-Filed seq w.win w.max w.entries v) hn (omega (arith, v.ack_lt)) (omega arith)
        ∙ entry-put seq next f w v hn e h)

-- The packets are the one numbered `next`, each with the message that moves the window there.
abbrev pub Repeats : Seq → List RadioPacket → Type 0
Repeats next [] = Unit {0}
Repeats next (p ∷ ps) = (p.seq ≡ next) × (p.control ≡ set_unack next ∷ []) × Repeats next ps

-- A window with a packet at its head that has arrived.
record Stuck (next : Seq) (w : RecvWindow) : Type 0 where
  at_head : w.ack ≡ next
  arrived : (entry w next).received ≡ true
  pos : 0 < w.win
  small : w.win < 32768

not_past : (a : ℕ) → gt a a ≡ false
unfolding gt
not_past a = ground arith

recv_opened-Stuck :
    (enforce : Bool) (p : RadioPacket) (next : ℕ) (w : RecvWindow)
    → next < 65536
    → Stuck next w
    → p.seq ≡ next
    → recv_opened enforce p w ≡ (w, [])
recv_opened-Stuck enforce p next w hn k same =
    let h = head_in next w.win hn k.pos k.small in
    recv_opened_duplicate enforce p w
      (ap (λ t. lt p.seq t) k.at_head ∙ ap (λ t. lt t next) same ∙ h.0)
      (ap (λ t. ge p.seq (add t w.win)) k.at_head ∙ ap (λ t. ge t (add next w.win)) same ∙ h.1)
      (ap (λ t. (entry w t).received) same ∙ k.arrived)

stays : (next : ℕ) (w : RecvWindow) → w.ack ≡ next → set_unack_to next w ≡ w
unfolding set_unack_to
stays next w e = rw (ap (λ t. gt next t) e ∙ not_past next) refl

run-Stuck :
    (enforce : Bool) (next : ℕ) (ps : List RadioPacket) (w : RecvWindow)
    → next < 65536
    → Stuck next w
    → Repeats next ps
    → run enforce ps w ≡ (w, [])
unfolding run recv_data handle_set_unack
run-Stuck enforce next [] w hn k r = refl
run-Stuck enforce next (p ∷ ps) w hn k (s, c, r) =
    let once : recv_data enforce p w ≡ (w, []) =
      ap (λ ms. recv_opened enforce p (handle_set_unack ms w)) c
      ∙ ap (recv_opened enforce p) (stays next w k.at_head)
      ∙ recv_opened-Stuck enforce p next w hn k s in
    ap (λ o. ((run enforce ps o.0).0, o.1 ++ (run enforce ps o.0).1)) once
    ∙ run-Stuck enforce next ps w hn k r

set_unack_to-Stuck :
    (next : ℕ) (w : RecvWindow)
    → IsValid w
    → next < 65536
    → gt next w.ack ≡ true
    → diff next w.ack < w.win
    → (entry w next).received ≡ true
    → Stuck next (set_unack_to next w) × (entry (set_unack_to next w) next ≡ entry w next)
unfolding set_unack_to
set_unack_to-Stuck next w v hn g near a =
    let f = diff next w.ack in
    let kept = release_loop-entry f w.ack next w v.filed hn refl near in
    let r = release_loop-Filed f w.ack next w hn refl (omega (arith, v.filed.small)) v.filed in
    rw g (
      record {
        at_head = refl;
        arrived = ap (λ (t : Entry). t.received) kept ∙ a;
        pos = omega (arith, v.filed.pos, r.1);
        small = omega (arith, v.filed.small, r.1);
      },
      kept,
    )

-- What a run has left of a packet that had arrived: nothing is delivered, the window expects the
-- packet, and its place holds what it has held.
pub record Stalled (next : Seq) (w : RecvWindow) (o : RecvWindow × List RadioPacket) : Type 0 where
  pub silent : o.1 ≡ []
  pub expected : o.0.ack ≡ next
  pub unmoved : entry o.0 next ≡ entry w next

-- When a packet of a valid window has arrived ahead of `ack` and the sender repeats it, any number of
-- times, with a set-unack message for its number, then none of these packets delivers anything: the
-- window expects the packet that it holds, whatever the ordering.
pub run-Stalled :
    (enforce : Bool) (next : ℕ) (p : RadioPacket) (ps : List RadioPacket) (w : RecvWindow)
    → IsValid w
    → next < 65536
    → gt next w.ack ≡ true
    → diff next w.ack < w.win
    → (entry w next).received ≡ true
    → Repeats next (p ∷ ps)
    → Stalled next w (run enforce (p ∷ ps) w)
unfolding run recv_data handle_set_unack
run-Stalled enforce next p ps w v hn g near a (s, c, r) =
    let (k, same) = set_unack_to-Stuck next w v hn g near a in
    let w' = set_unack_to next w in
    let once : recv_data enforce p w ≡ (w', []) =
      ap (λ ms. recv_opened enforce p (handle_set_unack ms w)) c
      ∙ recv_opened-Stuck enforce p next w' hn k s in
    let all : run enforce (p ∷ ps) w ≡ (w', []) =
      ap (λ o. ((run enforce ps o.0).0, o.1 ++ (run enforce ps o.0).1)) once
      ∙ run-Stuck enforce next ps w' hn k r in
    subst (Stalled next w) (sym all)
      (record { silent = refl; expected = k.at_head; unmoved = same })
