-- ===== src/Arq/Timers/Tests.antt =====
-- A receiver that may send two explicit NAKs in 100 microseconds.
use dragonradio.Prelude.{ℕ, List, ◌≡◌, refl, true, [], ◌∷◌, arith}
use dragonradio.Packet.{receiver_stats}
use dragonradio.Arq.Timers.{Local, new_receiver, nak}
use dragonradio.Arq.Timers.Rate.{Attempt, attempts, IsSpaced, nak_rate}
use dragonradio.Arq.Timers.Delay.{Answered, on_timer-Answered}

abbrev local : Local
local = record {
  my_id = 1;
  can_transmit = true;
  has_queue = true;
  ack_delay = 100;
  sack_delay = 50;
  explicit_nak_win_size = 2;
  explicit_nak_win_duration = 100;
  selective_ack = true;
  mtu = 1500;
  empty_size = 24;
  mcsidx_broadcast = 0;
}

abbrev at_time : ℕ → Attempt
at_time t = record { stats = receiver_stats 0 0; now = t; seq = 7 }

abbrev calls : List Attempt
calls = at_time 360 ∷ at_time 320 ∷ at_time 310 ∷ at_time 220 ∷ at_time 210 ∷ []

-- The third and the fifth call come too soon.
sent_at : (attempts local calls (new_receiver 2 0 8 2)).0 ≡ 320 ∷ 310 ∷ 220 ∷ 210 ∷ []
unfolding attempts nak new_receiver
sent_at = refl

nak_rate_example : IsSpaced 2 100 (attempts local calls (new_receiver 2 0 8 2)).0
nak_rate_example = nak_rate local calls 2 0 8 (omega arith)

on_timer-Answered_example :
    Answered local (receiver_stats 3 4) 1000 1060 1120 (new_receiver 2 0 8 2)
unfolding new_receiver
on_timer-Answered_example =
    on_timer-Answered local (receiver_stats 3 4) 1000 1060 1120 (new_receiver 2 0 8 2) refl refl
      refl
