-- ===== src/Arq/Feedback/Nak.antt =====
-- Which NAK the sender acts on.
use dragonradio.Prelude.{
  ◌≡◌, inl, inr, refl, subst, Bool, true, false, not, ◌||◌, Option, none, some, List, [], ◌∷◌,
  Bool-cases, is_some,
}
use dragonradio.Seq.{Seq}
use dragonradio.Packet.{
  ControlMsg, hello, timestamp, timestamp_echo, receiver_stats, nak, selective_ack, set_unack,
}
use dragonradio.Arq.Send.{SendWindow, entry, outside}
use dragonradio.Arq.Feedback.{nak_of, nak_loop, handle_nak}

-- The window holds a packet under the number.
abbrev pub Held : SendWindow → Seq → Type 0
Held w s = (outside w s ≡ false) × (is_some (entry w s).pkt ≡ true)

HeldIf : SendWindow → Option Seq → Type 0
HeldIf w r = (s : Seq) → r ≡ some s → Held w s

both_false : (a b : Bool) → a || not b ≡ false → (a ≡ false) × (b ≡ true)
both_false true b e = absurd (cc e)
both_false false true e = (refl, refl)
both_false false false e = absurd (cc e)

nak_of-HeldIf :
    (w : SendWindow) (r : Option Seq) (m : ControlMsg) → HeldIf w r → HeldIf w (nak_of w r m)
unfolding HeldIf
nak_of-HeldIf w r (nak t) h = elim (Bool-cases (outside w t || not (is_some (entry w t).pkt))) [
  | inl e ↦ rw e h
  | inr e ↦
      rw e (λ s q. subst (Held w) (cc q) (both_false (outside w t) (is_some (entry w t).pkt) e))
]
nak_of-HeldIf w r (hello g) h = h
nak_of-HeldIf w r (timestamp t) h = h
nak_of-HeldIf w r (timestamp_echo n s t) h = h
nak_of-HeldIf w r (receiver_stats e t) h = h
nak_of-HeldIf w r (selective_ack b e) h = h
nak_of-HeldIf w r (set_unack u) h = h

nak_loop-HeldIf :
    (w : SendWindow) (ms : List ControlMsg) (r : Option Seq)
    → HeldIf w r
    → HeldIf w (nak_loop ms w r)
unfolding nak_loop
nak_loop-HeldIf w [] r h = h
nak_loop-HeldIf w (m ∷ ms) r h = nak_loop-HeldIf w ms (nak_of w r m) (nak_of-HeldIf w r m h)

-- The number that `handleNAK` returns lies in the send window, which still holds its packet,
-- whatever the other side sends.
pub handle_nak-Held :
    (w : SendWindow) (ms : List ControlMsg) (s : Seq) → handle_nak ms w ≡ some s → Held w s
unfolding handle_nak HeldIf
handle_nak-Held w ms s e = nak_loop-HeldIf w ms none (λ t q. absurd (cc q)) s e
