-- ===== src/Packet/Control/Message.antt =====
-- A control message survives its encoding.
use dragonradio.Prelude.{◌^◌, ◌<◌, ◌≡◌, refl, length, get_or}
use dragonradio.Packet.{
  ControlMsg, Time, hello, timestamp, timestamp_echo, receiver_stats, nak, selective_ack, set_unack,
}
use dragonradio.Packet.Control.{encode, ctrlsize}

-- Each number fits the field that carries it.
abbrev TimeFits : Time → Type 0
TimeFits t = (t.secs < 256 ^ 8) × (t.frac_secs < 256 ^ 8)

abbrev pub Fits : ControlMsg → Type 0
Fits (hello g) = Unit
Fits (timestamp t) = TimeFits t
Fits (timestamp_echo n s r) = (n < 256) × TimeFits s × TimeFits r
Fits (receiver_stats e r) = (e < 256 ^ 8) × (r < 256 ^ 8)
Fits (nak s) = s < 65536
Fits (selective_ack b e) = (b < 65536) × (e < 65536)
Fits (set_unack u) = u < 65536

-- `ctrlsize` of a message's type byte is the number of its bytes.
pub ctrlsize-encode : (m : ControlMsg) → ctrlsize (get_or (encode m) 0 0) ≡ length (encode m)
ctrlsize-encode (hello g) = refl
ctrlsize-encode (timestamp t) = refl
ctrlsize-encode (timestamp_echo n s r) = refl
ctrlsize-encode (receiver_stats e r) = refl
ctrlsize-encode (nak s) = refl
ctrlsize-encode (selective_ack b e) = refl
ctrlsize-encode (set_unack u) = refl
