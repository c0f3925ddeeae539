-- ===== src/Arq/Timers/Delay.antt =====
-- How long a receive window waits with an ACK.
use dragonradio.Prelude.{ℕ, ◌+◌, ◌-◌, ◌≡◌, refl, true, none, some}
use dragonradio.Packet.Control.{ctrlsize}
use dragonradio.Packet.{NetPacket, ControlMsg}
use dragonradio.Arq.Timers.{
  Receiver, Local, stopped, feedback_packet, ack, start_sack_timer, on_timer,
}
use dragonradio.Arq.Feedback.{append_feedback}

-- The timer of `r`, started at `t₀`, fires at `t₁` and at `t₂`: what the second time gives, and when
-- each was due.
pub record Answered (l : Local) (stats : ControlMsg) (t₀ t₁ t₂ : ℕ) (r : Receiver) : Type 0 where
  pub first_due : (start_sack_timer l t₀ r).timer ≡ some (t₀ + l.sack_delay)
  pub silent : (on_timer l stats t₁ (stopped (start_sack_timer l t₀ r))).0 ≡ none
  pub flagged :
      (on_timer l stats t₁ (stopped (start_sack_timer l t₀ r))).1.window.need_selective_ack ≡ true
  pub second_due :
      (on_timer l stats t₁ (stopped (start_sack_timer l t₀ r))).1.timer
      ≡ some (t₁ + (l.ack_delay - l.sack_delay))
  pub answer :
      let r₂ = stopped (on_timer l stats t₁ (stopped (start_sack_timer l t₀ r))).1 in
      (p : NetPacket) × ((on_timer l stats t₂ r₂).0 ≡ some p)
      × (p.nexthop ≡ r.node)
      × (p.control
          ≡ (append_feedback l.selective_ack l.mtu (l.empty_size + ctrlsize 3) stats r₂.window).0)
      × ((on_timer l stats t₂ r₂).1.timer ≡ none)

-- A receive window that is owed an ACK gets one: once its timer has been started and fires, it asks for
-- a selective ACK and runs on for the rest of the delay of an ACK, and when it fires again a packet
-- goes out to the sender with all feedback on the window, and the timer has stopped. The timer does not run before, and the node can
-- transmit and has a network queue.
pub on_timer-Answered :
    (l : Local) (stats : ControlMsg) (t₀ t₁ t₂ : ℕ) (r : Receiver)
    → r.timer ≡ none
    → l.has_queue ≡ true
    → l.can_transmit ≡ true
    → Answered l stats t₀ t₁ t₂ r
unfolding start_sack_timer on_timer ack feedback_packet append_feedback
on_timer-Answered l stats t₀ t₁ t₂ r off q c =
    rw (off, q, c)
      (record {
        first_due = refl;
        silent = refl;
        flagged = refl;
        second_due = refl;
        answer = (_, refl, refl, refl, refl);
      })
