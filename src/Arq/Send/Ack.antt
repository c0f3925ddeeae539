-- ===== src/Arq/Send/Ack.antt =====
-- What an ACK does to the send window: `handleACK` and the loop of `received` over the numbers that
-- the ACK covers.
use native.Mathlib.Nat.{mod-lt}
use dragonradio.Prelude.{
  ℕ, ◌%◌, ◌<◌, ◌≡◌, ◌≢◌, inl, inr, refl, ◌∙◌, ap, subst, true, false, none, some, List, [], ◌∷◌,
  Bool-cases, Option-cases, length, get_or, set, length-set, get_or-set_self, get_or-set_ne,
  ℕ_discrete,
}
use dragonradio.Seq.{Seq}
use dragonradio.Packet.{NetPacket}
use dragonradio.Arq.Send.{
  SendWindow, Entry, Action, record_ack, entry, put, vacant, released, outside, handle_ack,
}

-- What one call may do to the window: it keeps its bounds, and what is free stays free.
pub record Keeps (w w' : SendWindow) : Type 0 where
  pub same_max : w'.max ≡ w.max
  pub same_win : w'.win ≡ w.win
  pub same_size : length w'.entries ≡ length w.entries
  pub still_free : (t : Seq) → (entry w t).pkt ≡ none → (entry w' t).pkt ≡ none

pub Keeps-refl : (w : SendWindow) → Keeps w w
Keeps-refl w = record { same_max = refl; same_win = refl; same_size = refl; still_free = λ t e. e }

pub Keeps-trans : (u v w : SendWindow) → Keeps u v → Keeps v w → Keeps u w
Keeps-trans u v w a b = record {
  same_max = b.same_max ∙ a.same_max;
  same_win = b.same_win ∙ a.same_win;
  same_size = b.same_size ∙ a.same_size;
  still_free = λ t e. b.still_free t (a.still_free t e);
}

set_free :
    (es : List Entry) (i j : ℕ) (e : Entry)
    → i < length es
    → e.pkt ≡ none
    → (get_or es j vacant).pkt ≡ none
    → (get_or (set es i e) j vacant).pkt ≡ none
set_free es i j e h q r = elim (ℕ_discrete i j) [
  | yes s ↦
      subst (λ (t : ℕ). (get_or (set es i e) t vacant).pkt ≡ none) s
        (ap (λ (t : Entry). t.pkt) (get_or-set_self es i e vacant h) ∙ q)
  | no n ↦ ap (λ (t : Entry). t.pkt) (get_or-set_ne es i j e vacant n) ∙ r
]

-- After `handleACK` of a number of the window its entry is free and its timer is off. A number
-- outside the window changes nothing.
pub record Handled (s : Seq) (w : SendWindow) (r : SendWindow × List Action) : Type 0 where
  pub keeps : Keeps w r.0
  pub same_unack : r.0.unack ≡ w.unack
  pub same_per_end : r.0.per_end ≡ w.per_end
  pub freed : outside w s ≡ false → (entry r.0 s).pkt ≡ none
  pub ignored : outside w s ≡ true → r ≡ (w, [])
  pub others : (t : Seq) → (s % length w.entries) ≢ (t % length w.entries) → entry r.0 t ≡ entry w t
  pub measured :
      (p : NetPacket)
      → outside w s ≡ false
      → (entry w s).pkt ≡ some p
      → r.1 ≡ record_ack (entry w s).sent_at ∷ []

put_free :
    (w : SendWindow) (s : Seq) (e : Entry)
    → 0 < length w.entries
    → e.pkt ≡ none
    → Keeps w (put w s e)
put_free w s e h q = record {
  same_max = refl;
  same_win = refl;
  same_size = length-set w.entries (s % length w.entries) e;
  still_free = λ t r.
      rw (length-set w.entries (s % length w.entries) e)
        (set_free w.entries (s % length w.entries) (t % length w.entries) e (mod-lt s h) q r);
}

entry-put_self :
    (w : SendWindow) (s : Seq) (e : Entry) → 0 < length w.entries → entry (put w s e) s ≡ e
entry-put_self w s e h =
    rw (length-set w.entries (s % length w.entries) e)
      (get_or-set_self w.entries (s % length w.entries) e vacant (mod-lt s h))

entry-put_ne :
    (w : SendWindow) (s t : Seq) (e : Entry)
    → (s % length w.entries) ≢ (t % length w.entries)
    → entry (put w s e) t ≡ entry w t
entry-put_ne w s t e n =
    rw (length-set w.entries (s % length w.entries) e)
      (get_or-set_ne w.entries (s % length w.entries) (t % length w.entries) e vacant n)

-- In a window that has places, an ACK of a number of the window empties its place, records the delay of the packet that was there
-- and leaves all other places alone; an ACK of a number outside the window changes nothing. No place
-- is filled, and the window's bounds stay.
pub handle_ack-Handled :
    (s : Seq) (w : SendWindow) → 0 < length w.entries → Handled s w (handle_ack s w)
unfolding handle_ack
handle_ack-Handled s w h = elim (Bool-cases (outside w s)) [
  | inl o ↦
      rw (o, handle_ack)
        (record {
          keeps = Keeps-refl w;
          same_unack = refl;
          same_per_end = refl;
          freed = λ n. absurd (cc n);
          ignored = λ _. refl;
          others = λ t _. refl;
          measured = λ p n _. absurd (cc n);
        })
  | inr o ↦ elim (Option-cases (entry w s).pkt) [
    | inl e ↦
        rw (o, e, handle_ack)
          (record {
            keeps = Keeps-refl w;
            same_unack = refl;
            same_per_end = refl;
            freed = λ _. e;
            ignored = λ n. absurd (cc n);
            others = λ t _. refl;
            measured = λ p _ f. absurd (cc f);
          })
    | inr (p, e) ↦
        rw (o, e, handle_ack)
          (record {
            keeps = put_free w s (released (entry w s)) h refl;
            same_unack = refl;
            same_per_end = refl;
            freed = λ _. ap (λ (t : Entry). t.pkt) (entry-put_self w s (released (entry w s)) h);
            ignored = λ n. absurd (cc n);
            others = λ t n. entry-put_ne w s t (released (entry w s)) n;
            measured = λ q _ _. refl;
          })
  ]
]
