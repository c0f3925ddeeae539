-- ===== src/Arq/Feedback/Quiet.antt =====
-- `appendFeedback` where a receive window has nothing to report.
use dragonradio.Prelude.{
  ℕ, zero, suc, ◌+◌, ◌-◌, ◌/◌, min, ◌≡◌, refl, false, List, [], ◌++◌, drop, ltb, Bool-cases, inl,
  inr, ◌∙◌, ap,
}
use dragonradio.Packet.{ControlMsg}
use dragonradio.Seq.{diff, le, lt, incr}
use dragonradio.Arq.Recv.{RecvWindow}
use dragonradio.Arq.Feedback.{Run, sack_loop, close_run, mark_end, sacks, prune}

module _ (w : RecvWindow) where
  abbrev start : Run
  start = record { in_run = false; first = w.ack; last = w.ack }

  stops : (f : ℕ) → le (incr w.ack) w.max ≡ false → sack_loop f (incr w.ack) w start ≡ ([], start)
  unfolding sack_loop
  stops zero h = refl
  stops (suc f) h = rw (h, sack_loop) refl

  -- Nothing lies beyond `ack`.
  pub sacks-quiet : le (incr w.ack) w.max ≡ false → lt w.ack w.max ≡ false → sacks w ≡ []
  unfolding sacks
  sacks-quiet h l =
      ap (λ (t : List ControlMsg × Run). t.0 ++ (close_run t.1 ++ mark_end w t.1))
        (stops (diff w.max w.ack) h)
      ∙ rw l refl

drop-nothing : (n : ℕ) → drop {A = ControlMsg} n [] ≡ []
drop-nothing zero = refl
drop-nothing (suc n) = refl

pub prune-nothing : (mtu size : ℕ) → prune mtu size [] ≡ []
unfolding prune
prune-nothing mtu size = elim (Bool-cases (ltb mtu (size + 0))) [
  | inl e ↦ rw e (drop-nothing (min ((size + 0 - mtu + 5 - 1) / 5) 0))
  | inr e ↦ rw e refl
]
