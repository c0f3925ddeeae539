-- ===== src/Arq/Send.antt =====
-- The send window of src/mac/SmartController.{hh,cc}. A function returns the new window with the
-- calls that it makes of other parts, in order. Each entry's retransmission timer is a flag: the
-- timer queue holds it or not.
pub mod Ack
pub mod Cumulative
pub mod Skip
mod Tests
use dragonradio.Prelude.{
  ℕ, zero, suc, ◌+◌, ◌%◌, Bool, true, false, not, ◌&&◌, ◌||◌, Option, none, some, List, [], ◌∷◌,
  ◌++◌, length, get_or, set, replicate, if◌then◌else◌, ◌==◌, ltb, leb, is_some,
}
use dragonradio.Seq.{Seq, diff, lt, le, gt, ge, add, incr}
use dragonradio.Packet.{
  NetPacket, ControlMsg, hello, timestamp, timestamp_echo, receiver_stats, nak, selective_ack,
  set_unack, deadline_passed,
}

-- `SendWindow::Entry`
pub record Entry : Type 0 where
  pub pkt : Option NetPacket
  pub sent_at : ℕ
  pub running : Bool

abbrev pub vacant : Entry
vacant = record { pkt = none; sent_at = 0; running = false }

-- `struct SendWindow`. An estimator of the packet error rate is the list of the samples that it was
-- given since its last reset, latest first: `true` is a failure.
pub record SendWindow : Type 0 where
  pub seq : Seq
  pub unack : Seq
  pub max : Seq
  pub new_window : Bool
  pub send_set_unack : Bool
  pub win : ℕ
  pub maxwin : ℕ
  pub mcsidx : ℕ
  pub per_cutoff : Seq
  pub per_end : Seq
  pub short_per : List Bool
  pub long_per : List Bool
  pub long_evm : Option ℕ
  pub long_rssi : Option ℕ
  pub entries : List Entry

-- Calls of other parts: `netq_->repush`, `netq_->setSendWindowStatus` and `recordACK`.
pub data Action : Type 0 where
  repush : NetPacket → Action
  set_status : Bool → Action
  record_ack : ℕ → Action

-- What the controller reads of its surroundings: whether the destination and this node can
-- transmit, the time, and `max_retransmissions_`.
pub record Env : Type 0 where
  pub dest_can_transmit : Bool
  pub me_can_transmit : Bool
  pub now : ℕ
  pub max_retransmissions : Option ℕ

-- The constructor `SendWindow(n, controller, maxwin, retransmission_delay)`.
unfoldable pub new_send_window : ℕ → SendWindow
new_send_window maxwin = record {
  seq = 0;
  unack = 0;
  max = 0;
  new_window = true;
  send_set_unack = false;
  win = 1;
  maxwin = maxwin;
  mcsidx = 0;
  per_cutoff = 0;
  per_end = 0;
  short_per = [];
  long_per = [];
  long_evm = none;
  long_rssi = none;
  entries = replicate maxwin vacant;
}

-- `operator[]`, read and written.
abbrev pub entry : SendWindow → Seq → Entry
entry w s = get_or w.entries (s % length w.entries) vacant

abbrev pub put : SendWindow → Seq → Entry → SendWindow
put w s e = record w { entries = set w.entries (s % length w.entries) e }

-- `seq < sendw.unack || seq >= sendw.unack + sendw.win`
abbrev pub outside : SendWindow → Seq → Bool
outside w s = lt s w.unack || ge s (add w.unack w.win)

-- `txSuccess` and `txFailure`
abbrev pub tx_success : SendWindow → SendWindow
tx_success w = record w { short_per = false ∷ w.short_per; long_per = false ∷ w.long_per }

abbrev pub tx_failure : SendWindow → SendWindow
tx_failure w = record w { short_per = true ∷ w.short_per; long_per = true ∷ w.long_per }

-- `timer_queue_.cancel(entry)` with `entry.reset()`.
abbrev pub released : Entry → Entry
released e = record e { pkt = none; running = false }

-- The last part of `handleACK`, on the entry's packet.
abbrev pub release : Seq → SendWindow → Option NetPacket → SendWindow × List Action
release s w none = (w, [])
release s w (some p) = (put w s (released (entry w s)), record_ack (entry w s).sent_at ∷ [])

-- `handleACK`
unfoldable pub handle_ack : Seq → SendWindow → SendWindow × List Action
handle_ack s w = if outside w s then (w, []) else release s w (entry w s).pkt

-- The body of the loop over the packets that an ACK covers, with its `++sendw.unack`.
unfoldable pub ack_round : SendWindow → SendWindow × List Action
unfolding handle_ack
ack_round w =
    let (w', acts) = handle_ack w.unack w in
    let w'' = if ge w'.unack w'.per_end then tx_success w' else w' in
    (record w'' { unack = incr w''.unack }, acts)

-- `for (; sendw.unack < pkt->ehdr().ack && sendw.unack <= sendw.max; ++sendw.unack)`
pub ack_loop : ℕ → Seq → SendWindow → SendWindow × List Action
ack_loop zero a w = (w, [])
ack_loop (suc f) a w = elim (lt w.unack a && le w.unack w.max) [
  | false ↦ (w, [])
  | true ↦
      let (w', acts) = ack_round w in let (w'', acts') = ack_loop f a w' in (w'', acts ++ acts')
]

-- `if (pkt->ehdr().ack > sendw.unack) { ... }`; the loop makes at most `ack - unack` rounds.
unfoldable pub ack_up_to : Seq → SendWindow → SendWindow × List Action
unfolding ack_loop ack_round
ack_up_to a w =
    let (w', acts) = ack_loop (diff a w.unack) a w in
    if gt a w.unack
    then (if gt w'.unack w'.per_end then record w' { per_end = w'.unack } else w', acts)
    else (w, [])

-- `while (sendw.unack <= sendw.max && !sendw[sendw.unack]) ++sendw.unack;`
pub skip_loop : ℕ → SendWindow → SendWindow
skip_loop zero w = w
skip_loop (suc f) w = elim (le w.unack w.max && not (is_some (entry w w.unack).pkt)) [
  | false ↦ w
  | true ↦ skip_loop f (record w { unack = incr w.unack })
]

-- `advanceSendWindow`; the loop makes at most `max + 1 - unack` rounds.
unfoldable pub advance_send_window : SendWindow → SendWindow × List Action
unfolding skip_loop
advance_send_window w =
    let w' = skip_loop (diff (incr w.max) w.unack) w in
    let moved = gt w'.unack w.unack in
    (
      record w' {
        per_cutoff = if gt w'.unack w'.per_cutoff then w'.unack else w'.per_cutoff;
        win = w'.maxwin;
        send_set_unack = if moved then true else w'.send_set_unack;
      },
      if lt w'.seq (add w'.unack w'.maxwin) then set_status true ∷ [] else [],
    )

-- `drop(sendw[s])`, on the entry's packet.
abbrev pub drop_packet : Seq → SendWindow → Option NetPacket → SendWindow × List Action
drop_packet s w none = (w, [])
drop_packet s w (some p) = advance_send_window (put w s (released (entry w s)))

unfoldable pub drop_entry : Seq → SendWindow → SendWindow × List Action
unfolding advance_send_window
drop_entry s w = drop_packet s w (entry w s).pkt

-- `startRetransmissionTimer`
abbrev pub start_timer : Entry → Entry
start_timer e = record e { running = is_some e.pkt || e.running }

-- The packet that `retransmit` puts back on the queue; the entry shares it.
abbrev pub again : NetPacket → NetPacket
again p = record p { control = []; retransmission = true }

-- `retransmit`, past the test of the destination, on the entry's packet.
abbrev pub resend : Env → Seq → SendWindow → Option NetPacket → SendWindow × List Action
resend env s w none = (w, [])
resend env s w (some p) =
    if env.me_can_transmit
    then (
      put w s (record (entry w s) { pkt = some (again p); running = false }),
      repush (again p) ∷ [],
    )
    else (put w s (start_timer (record (entry w s) { running = false })), [])

-- `retransmit(sendw[s])`
unfoldable pub retransmit : Env → Seq → SendWindow → SendWindow × List Action
retransmit env s w =
    if env.dest_can_transmit
    then resend env s w (entry w s).pkt
    else (put w s (start_timer (record (entry w s) { running = false })), [])

-- `Entry::mayDrop` and `Entry::shouldDrop`, of an entry that holds `p`.
abbrev pub may_drop : NetPacket → Bool
may_drop p = not p.syn

abbrev pub too_often : Option ℕ → NetPacket → Bool
too_often none p = false
too_often (some n) p = leb n p.nretrans

unfoldable pub should_drop_entry : Env → NetPacket → Bool
unfolding deadline_passed
should_drop_entry env p =
    not p.syn && (too_often env.max_retransmissions p || deadline_passed p env.now)

-- `retransmitOrDrop(sendw[s])`, whose entry holds `p`.
unfoldable pub retransmit_or_drop : Env → Seq → NetPacket → SendWindow → SendWindow × List Action
unfolding drop_entry retransmit should_drop_entry
retransmit_or_drop env s p w =
    if should_drop_entry env p then drop_entry s w else retransmit env s w
