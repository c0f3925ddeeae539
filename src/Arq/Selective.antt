-- ===== src/Arq/Selective.antt =====
-- `handleSelectiveACK` of src/mac/SmartController.cc: the gaps and the runs of the selective ACKs.
pub mod Kept
pub mod Freed
mod Tests
use dragonradio.Prelude.{
  ℕ, zero, suc, Bool, true, false, not, ◌&&◌, Option, none, some, List, [], ◌∷◌, ◌++◌,
  if◌then◌else◌, ltb,
}
use dragonradio.Seq.{Seq, diff, lt, ge, incr}
use dragonradio.Packet.{
  NetPacket, ControlMsg, hello, timestamp, timestamp_echo, receiver_stats, nak, selective_ack,
  set_unack,
}
use dragonradio.Arq.Send.{
  SendWindow, Action, Env, entry, tx_success, tx_failure, handle_ack, retransmit,
}

-- The loop's body for a number of a gap, on the packet that the window holds under it.
abbrev pub gap_round : Env → ℕ → Seq → SendWindow → Option NetPacket → SendWindow × List Action
gap_round env tfeedback seq w none = (record w { per_end = incr seq }, [])
gap_round env tfeedback seq w (some p) =
    let w₁ = if ge seq w.per_cutoff then tx_failure w else w in
    let (w₂, acts) = retransmit env seq w₁ in
    if ltb (entry w seq).sent_at tfeedback
    then (record w₂ { per_end = incr seq }, acts)
    else (w, [])

-- `for (Seq seq = nextSeq; seq < it->ack.begin; ++seq)`
pub gap_loop : Env → ℕ → ℕ → Seq → Seq → SendWindow → SendWindow × List Action
gap_loop env tfeedback zero seq begin w = (w, [])
gap_loop env tfeedback (suc f) seq begin w = elim (lt seq begin) [
  | false ↦ (w, [])
  | true ↦
      let (w₁, acts) =
        if ge seq w.per_end then gap_round env tfeedback seq w (entry w seq).pkt else (w, []) in
      let (w₂, acts') = gap_loop env tfeedback f (incr seq) begin w₁ in (w₂, acts ++ acts')
]

-- The loop's body for a number of a run.
abbrev pub run_round : ℕ → Seq → SendWindow → SendWindow × List Action
run_round tfeedback seq w =
    let (w₁, acts) = if ge seq w.unack then handle_ack seq w else (w, []) in
    if ge seq w₁.per_end && ltb (entry w₁ seq).sent_at tfeedback
    then (record (tx_success w₁) { per_end = incr seq }, acts)
    else (w₁, acts)

-- `for (Seq seq = it->ack.begin; seq < it->ack.end; ++seq)`
pub run_loop : ℕ → ℕ → Seq → Seq → SendWindow → SendWindow × List Action
run_loop tfeedback zero seq end w = (w, [])
run_loop tfeedback (suc f) seq end w = elim (lt seq end) [
  | false ↦ (w, [])
  | true ↦
      let (w₁, acts) = run_round tfeedback seq w in
      let (w₂, acts') = run_loop tfeedback f (incr seq) end w₁ in (w₂, acts ++ acts')
]

-- One selective ACK, where the last one ended at `next`; `saw` is `sawACKRun`.
unfoldable pub one_sack : Env → ℕ → Bool → Seq → Seq → Seq → SendWindow → SendWindow × List Action
one_sack env tfeedback saw next begin end w =
    let w₀ = record w {
      send_set_unack = if not saw && lt begin w.unack then true else w.send_set_unack;
    } in
    let (w₁, acts) = gap_loop env tfeedback (diff begin next) next begin w₀ in
    let (w₂, acts') = run_loop tfeedback (diff end begin) begin end w₁ in (w₂, acts ++ acts')

pub sack_messages : Env → ℕ → Bool → Seq → List ControlMsg → SendWindow → SendWindow × List Action
sack_messages env tfeedback saw next [] w = (w, [])
sack_messages env tfeedback saw next (selective_ack begin end ∷ ms) w =
    let (w₁, acts) = one_sack env tfeedback saw next begin end w in
    let (w₂, acts') = sack_messages env tfeedback true end ms w₁ in (w₂, acts ++ acts')
sack_messages env tfeedback saw next (hello g ∷ ms) w = sack_messages env tfeedback saw next ms w
sack_messages env tfeedback saw next (timestamp t ∷ ms) w =
    sack_messages env tfeedback saw next ms w
sack_messages env tfeedback saw next (timestamp_echo n s t ∷ ms) w =
    sack_messages env tfeedback saw next ms w
sack_messages env tfeedback saw next (receiver_stats e t ∷ ms) w =
    sack_messages env tfeedback saw next ms w
sack_messages env tfeedback saw next (nak s ∷ ms) w = sack_messages env tfeedback saw next ms w
sack_messages env tfeedback saw next (set_unack u ∷ ms) w =
    sack_messages env tfeedback saw next ms w

-- `handleSelectiveACK`
unfoldable pub handle_selective_ack :
    Env → ℕ → List ControlMsg → SendWindow → SendWindow × List Action
unfolding sack_messages
handle_selective_ack env tfeedback ms w = sack_messages env tfeedback false w.unack ms w
