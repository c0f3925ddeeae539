-- ===== src/Arq/Recv/Drain.antt =====
-- The last loop of `received`, and what one call delivers.
use dragonradio.Prelude.{
  ℕ, zero, suc, ◌+◌, ◌%◌, ◌≤◌, ◌<◌, ◌≡◌, inl, inr, refl, sym, ◌∙◌, subst, Bool, true, false, List,
  [], ◌∷◌, ◌++◌, arith, Bool-cases, ◌&&◌,
}
use dragonradio.Seq.{diff, lt, le, incr}
use dragonradio.Packet.{RadioPacket}
use dragonradio.Arq.Recv.{Entry, cleared, RecvWindow, entry, put, undelivered, drain_loop, drain}
use dragonradio.Arq.Recv.Filed.{release-Filed, At, at_free, at_early, at_kept, head-At}
use dragonradio.Arq.Recv.Fill.{Bounded}
use dragonradio.Arq.Recv.Loops.{IsValid}

-- The packets `out` have the sequence numbers of some of the positions `u`, `u + 1`, ... before
-- `v` of an endless stream, in ascending order and each at most once.
pub data Delivers (v : ℕ) : ℕ → List RadioPacket → Type 0 where
  done : {u : ℕ} → u ≤ v → Delivers v u []
  next :
      {u : ℕ} {out : List RadioPacket} (k : ℕ) (p : RadioPacket)
      → u ≤ k
      → p.seq ≡ k % 65536
      → Delivers v (suc k) out
      → Delivers v u (p ∷ out)

pub Delivers-le : {v u : ℕ} {out : List RadioPacket} → Delivers v u out → u ≤ v
Delivers-le (done h) = h
Delivers-le (next k p h e d) = let r = Delivers-le d in omega arith

pub Delivers_later :
    {v u : ℕ} {out : List RadioPacket} (t : ℕ) → t ≤ u → Delivers v u out → Delivers v t out
Delivers_later t h (done k) = done (omega arith)
Delivers_later t h (next k p g e d) = next k p (omega arith) e d

pub Delivers_longer :
    {v u : ℕ} {out : List RadioPacket} (t : ℕ) → v ≤ t → Delivers v u out → Delivers t u out
Delivers_longer t h (done k) = done (omega arith)
Delivers_longer t h (next k p g e d) = next k p g e (Delivers_longer t h d)

pub Delivers-append :
    {m u : ℕ} {xs : List RadioPacket} (v : ℕ) (ys : List RadioPacket)
    → Delivers m u xs
    → Delivers v m ys
    → Delivers v u (xs ++ ys)
Delivers-append v ys (done h) d = Delivers_later _ h d
Delivers-append v ys (next k p h e r) d = next k p h e (Delivers-append v ys r d)

-- What a function of the window leaves: a valid window of the same size, moved on by at most `f`
-- positions from position `u`, past all packets that it delivered.
pub record Moved (f u : ℕ) (w : RecvWindow) (r : RecvWindow × List RadioPacket) : Type 0 where
  pub valid : IsValid r.0
  pub same_win : r.0.win ≡ w.win
  pub stop : ℕ
  pub within : stop ≤ u + f
  pub at : r.0.ack ≡ stop % 65536
  pub out : Delivers stop u r.1

pub Bounded-next :
    (a n mx : ℕ)
    → a < 65536
    → mx < 65536
    → n < 32768
    → 0 < n
    → le a mx ≡ true
    → Bounded a n mx
    → Bounded (incr a) n mx
unfolding le lt
Bounded-next a n mx ha hm hn h0 h b = ground arith

and_true : (a b : Bool) → (a && b) ≡ true → (a ≡ true) × (b ≡ true)
and_true a b h = ground arith

-- The entry at `ack` as the loop meets it, before what the rest of the loop delivers.
pub entry-Delivers :
    (u v mx s : ℕ) (e : Entry) (out : List RadioPacket)
    → s ≡ u % 65536
    → At mx s e
    → Delivers v (suc u) out
    → Delivers v u (undelivered e ++ out)
entry-Delivers u v mx s e out hs (at_free c) d =
    subst (λ t. Delivers v u (undelivered t ++ out)) (sym c) (Delivers_later u (omega arith) d)
entry-Delivers u v mx s e out hs (at_early l c) d =
    subst (λ t. Delivers v u (undelivered t ++ out)) (sym c) (Delivers_later u (omega arith) d)
entry-Delivers u v mx s e out hs (at_kept p l q c) d =
    subst (λ t. Delivers v u (undelivered t ++ out)) (sym c) (next u p (omega arith) (q ∙ hs) d)

pub drain_loop-Moved :
    (f u : ℕ) (w : RecvWindow) → w.ack ≡ u % 65536 → IsValid w → Moved f u w (drain_loop f w.ack w)
unfolding drain_loop
drain_loop-Moved zero u w h v = record {
  valid = v;
  same_win = refl;
  stop = u;
  within = omega arith;
  at = h;
  out = done (omega arith);
}
drain_loop-Moved (suc f) u w h v = elim (Bool-cases (le w.ack w.max && (entry w w.ack).received)) [
  | inl e ↦
      let both = and_true (le w.ack w.max) (entry w w.ack).received e in
      let w₁ : RecvWindow = record (put w w.ack cleared) { ack = incr w.ack } in
      let v₁ : IsValid w₁ = record {
        filed = release-Filed w.ack w.win w.max w.entries v.filed;
        bounded =
            Bounded-next w.ack w.win w.max v.filed.ack_lt v.filed.max_lt v.filed.small v.filed.pos
              both.0 v.bounded;
      } in
      let r = drain_loop-Moved f (suc u) w₁ (omega arith) v₁ in
      rw (e, drain_loop)
        (record {
          valid = r.valid;
          same_win = r.same_win;
          stop = r.stop;
          within = omega (arith, r.within);
          at = r.at;
          out = entry-Delivers u r.stop w.max w.ack (entry w w.ack) _ h (head-At v.filed) r.out;
        })
  | inr e ↦
      rw (e, drain_loop)
        (record {
          valid = v;
          same_win = refl;
          stop = u;
          within = omega arith;
          at = h;
          out = done (omega arith);
        })
]

past_max : (a mx : ℕ) → a < 65536 → mx < 65536 → diff (incr mx) a ≡ 0 → le a mx ≡ false
unfolding le
past_max a mx ha hm h = ground arith

-- The loop ends at the first entry that was not received, or past `max`.
pub drain_loop-hole :
    (f : ℕ) (w : RecvWindow)
    → diff (incr w.max) w.ack ≡ f
    → w.ack < 65536
    → w.max < 65536
    → f < 65536
    → let w' = (drain_loop f w.ack w).0 in (le w'.ack w'.max && (entry w' w'.ack).received) ≡ false
unfolding drain_loop
drain_loop-hole zero w e ha hm hf = rw (past_max w.ack w.max ha hm e)
drain_loop-hole (suc f) w e ha hm hf =
    elim (Bool-cases (le w.ack w.max && (entry w w.ack).received)) [
      | inl t ↦
          let w₁ : RecvWindow = record (put w w.ack cleared) { ack = incr w.ack } in
          rw (t, drain_loop) (drain_loop-hole f w₁ (omega arith) (omega arith) hm (omega arith))
      | inr t ↦ rw (t, drain_loop) t
    ]

-- The number of rounds is at most the size of the window.
rounds-le :
    (a n mx : ℕ)
    → a < 65536
    → mx < 65536
    → n < 32768
    → 0 < n
    → Bounded a n mx
    → le a mx ≡ true
    → diff (incr mx) a ≤ n
unfolding lt le
rounds-le a n mx ha hm hn h0 b h = ground arith

drain_loop-stop : (f : ℕ) (w : RecvWindow) → le w.ack w.max ≡ false → drain_loop f w.ack w ≡ (w, [])
unfolding drain_loop
drain_loop-stop zero w h = refl
drain_loop-stop (suc f) w h = rw (h, drain_loop)

pub Moved-more :
    (f g u : ℕ) (w : RecvWindow) (r : RecvWindow × List RadioPacket)
    → f ≤ g
    → Moved f u w r
    → Moved g u w r
Moved-more f g u w r h m = record {
  valid = m.valid;
  same_win = m.same_win;
  stop = m.stop;
  within = omega (arith, m.within);
  at = m.at;
  out = m.out;
}

-- Draining moves the window on past all that it delivers.
pub drain-Moved :
    (u : ℕ) (w : RecvWindow) → w.ack ≡ u % 65536 → IsValid w → Moved w.win u w (drain w)
unfolding drain
drain-Moved u w h v = elim (Bool-cases (le w.ack w.max)) [
  | inl l ↦
      let f = diff (incr w.max) w.ack in
      Moved-more f w.win u w (drain_loop f w.ack w)
        (rounds-le w.ack w.win w.max v.filed.ack_lt v.filed.max_lt v.filed.small v.filed.pos
          v.bounded l)
        (drain_loop-Moved f u w h v)
  | inr l ↦ rw (drain_loop-stop (diff (incr w.max) w.ack) w l) (record {
    valid = v;
    same_win = refl;
    stop = u;
    within = omega arith;
    at = h;
    out = done (omega arith);
  })
]
