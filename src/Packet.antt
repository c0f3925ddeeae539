-- ===== src/Packet.antt =====
-- src/Packet.hh and src/Header.hh: control messages and what the MAC reads of a packet.
-- A `double` is carried as its bit pattern and an instant as a number of microseconds.
pub mod Control
use dragonradio.Prelude.{
  ℕ, ◌<◌, Bool, true, false, not, ◌&&◌, ◌||◌, Option, none, some, List, ltb, ◌==◌,
}
use dragonradio.Seq.{Seq}

abbrev pub NodeId : Type 0
NodeId = ℕ

-- `kNodeBroadcast`
abbrev pub node_broadcast : NodeId
node_broadcast = 255

-- `struct Time`
pub record Time : Type 0 where
  pub secs : ℕ
  pub frac_secs : ℕ

-- `struct ControlMsg`: a type tag with the member of the union that it selects.
pub data ControlMsg : Type 0 where
  hello : Bool → ControlMsg
  timestamp : Time → ControlMsg
  timestamp_echo : NodeId → Time → Time → ControlMsg
  receiver_stats : ℕ → ℕ → ControlMsg
  nak : Seq → ControlMsg
  selective_ack : Seq → Seq → ControlMsg
  set_unack : Seq → ControlMsg

-- `struct Header` with its `Flags`, and the `ack` and `data_len` of the extended header.
pub record Header : Type 0 where
  pub curhop : NodeId
  pub nexthop : NodeId
  pub seq : Seq
  pub syn : Bool
  pub ack_flag : Bool
  pub ack : Seq
  pub data_len : ℕ

-- `struct RadioPacket` as the MAC reads it: `is_tcp` is what `isTCP()` returns, `control` the
-- messages that `begin()` to `end()` visits, and `body` stands for the rest of the payload.
pub record RadioPacket : Type 0 where
  pub hdr : Header
  pub open hdr use *
  pub is_tcp : Bool
  pub timestamp : ℕ
  pub control : List ControlMsg
  pub body : ℕ

-- `struct NetPacket` as the MAC reads it.
pub record NetPacket : Type 0 where
  pub hdr : Header
  pub open hdr use *
  pub retransmission : Bool
  pub has_seq : Bool
  pub deadline : Option ℕ
  pub mcsidx : ℕ
  pub nretrans : ℕ
  pub control : List ControlMsg
  pub body : ℕ

-- `NetPacket::deadlinePassed`
unfoldable pub deadline_passed : NetPacket → ℕ → Bool
deadline_passed pkt now = elim pkt.deadline [ none ↦ false | some d ↦ ltb d now ]

-- `NetPacket::shouldDrop`
unfoldable pub should_drop : NetPacket → ℕ → Bool
unfolding deadline_passed
should_drop pkt now = not pkt.syn && deadline_passed pkt now
