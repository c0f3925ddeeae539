-- ===== src/Arq/Feedback/Reported.antt =====
-- What `appendFeedback` leaves of a window's selective ACKs in a packet of limited size.
use dragonradio.Prelude.{ℕ, ◌+◌, ◌*◌, length, ◌⊎◌, ◌≤◌, ◌<◌, ◌≡◌, List, [], ◌∷◌, ◌++◌}
use dragonradio.Seq.{Seq, diff, incr}
use dragonradio.Packet.{ControlMsg}
use dragonradio.Packet.Control.{ctrlsize}
use dragonradio.Arq.Recv.{RecvWindow}
use dragonradio.Arq.Feedback.{sacks}
use dragonradio.Arq.Feedback.Sacks.{acked, received_of}

-- The ranges that are kept: they fit, they name the last of the numbers that all ranges name, and all
-- of them unless the ranges do not fit together.
record Kept (mtu size : ℕ) (all kept : List ControlMsg) : Type 0 where
  names :
      (front : List Seq) × (front ++ acked kept ≡ acked all)
      × ((front ≡ []) ⊎ (mtu < size + ctrlsize 5 * length all))
  fits : size + ctrlsize 5 * length kept ≤ mtu

-- What `appendFeedback` appends, in order: the statistics, and ranges that name, in order and each
-- once, the last of the numbers that the window has received beyond `ack`.
pub record Reported (mtu size : ℕ) (stats : ControlMsg) (w : RecvWindow) (ms : List ControlMsg)
    : Type 0 where
  pub kept : List ControlMsg
  pub left_out : List Seq
  pub shape : ms ≡ stats ∷ kept
  pub names : left_out ++ acked kept ≡ received_of w (diff w.max w.ack) (incr w.ack)
  pub complete : (left_out ≡ []) ⊎ (mtu < size + ctrlsize 5 * length (sacks w))
  pub fits : size + ctrlsize 5 * length kept ≤ mtu
