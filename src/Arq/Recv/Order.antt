-- ===== src/Arq/Recv/Order.antt =====
-- The order in which calls of `received` deliver packets that must stay in order.
use dragonradio.Prelude.{
  ℕ, ◌+◌, ◌%◌, ◌<◌, ◌≡◌, refl, ◌∙◌, subst, Bool, true, false, not, List, [], ◌∷◌, ◌++◌, arith, ◌&&◌,
}
use dragonradio.Seq.{diff, lt, ge, add}
use dragonradio.Packet.{RadioPacket}
use dragonradio.Arq.Recv.{
  RecvWindow, file_packet, handle_set_unack, advance_recv_window, recv_opened, recv_data,
}
use dragonradio.Arq.Recv.Loops.{IsValid}
use dragonradio.Arq.Recv.Advance.{advance_recv_window_frame}
use dragonradio.Arq.Recv.Drain.{
  Moved, Moved-more, Delivers, Delivers-le, Delivers_later, Delivers-append, done,
}
use dragonradio.Arq.Recv.Deliver.{advance_recv_window-Moved}
use dragonradio.Arq.Recv.File.{jumped-Fits, steps-le, file_packet-Moved}
use dragonradio.Arq.Recv.Receive.{
  UnacksFit, IsNear, jumps, recv_opened_cases, handle_set_unack-IsValid, recv_data-IsValid,
}

module _ (enforce : Bool) (p : RadioPacket) (w : RecvWindow) (s_lt : p.seq < 65536) (v : IsValid w)
    (near : IsNear p.seq w) (u : ℕ) (o : (not enforce && not p.is_tcp) ≡ false)
    (h : w.ack ≡ u % 65536) where
  still : Moved 32769 u w (w, [])
  still = record {
    valid = v;
    same_win = refl;
    stop = u;
    within = omega arith;
    at = h;
    out = done (omega arith);
  }

  jumped :
      lt p.seq w.ack ≡ false
      → ge p.seq (add w.ack w.win) ≡ true
      → let moved = advance_recv_window p.seq w in
        let (w', out) = file_packet enforce p moved.0 in Moved 32769 u w (w', moved.1 ++ out)
  jumped l g =
      let fr = advance_recv_window_frame p.seq w in
      let j = jumps enforce p w s_lt v near l g in
      let m₁ = advance_recv_window-Moved p.seq w u v j h in
      let m₂ =
        file_packet-Moved enforce p (advance_recv_window p.seq w).0 m₁.valid
          (jumped-Fits p.seq w v j) m₁.stop o m₁.at in
      record {
        valid = m₂.valid;
        same_win = m₂.same_win ∙ fr.1;
        stop = m₂.stop;
        within = omega (
          arith,
          m₁.within,
          m₂.within,
          fr.1,
          steps-le w.ack w.win p.seq v.filed.ack_lt s_lt v.filed.small v.filed.pos l g,
        );
        at = m₂.at;
        out =
            Delivers-append m₂.stop (file_packet enforce p (advance_recv_window p.seq w).0).1 m₁.out
              m₂.out;
      }

  recv_opened-Moved : Moved 32769 u w (recv_opened enforce p w)
  recv_opened-Moved = recv_opened_cases enforce p w s_lt v near (Moved 32769 u w) still jumped (λ f.
      Moved-more (w.win + 1) 32769 u w (file_packet enforce p w) (omega (arith, v.filed.small))
        (file_packet-Moved enforce p w v f u o h))

  recv_opened-Delivers : let r = recv_opened enforce p w in Delivers (u + diff r.0.ack w.ack) u r.1
  recv_opened-Delivers =
      let m = recv_opened-Moved in
      let same : m.stop ≡ u + diff (recv_opened enforce p w).0.ack w.ack =
        omega (arith, m.within, m.at, h, Delivers-le m.out) in
      subst (λ (t : ℕ). Delivers t u (recv_opened enforce p w).1) same m.out

-- By how many positions a call moves the window on: for the set-unack messages, then for the data.
unfoldable pub progress : Bool → RadioPacket → RecvWindow → ℕ
progress enforce p w =
    diff (handle_set_unack p.control w).ack w.ack
    + diff (recv_data enforce p w).0.ack (handle_set_unack p.control w).ack

-- Successive calls for the packets that arrive, with all that they deliver.
unfoldable pub run : Bool → List RadioPacket → RecvWindow → RecvWindow × List RadioPacket
run enforce [] w = (w, [])
run enforce (p ∷ ps) w =
    let (w₁, out₁) = recv_data enforce p w in
    let (w₂, out₂) = run enforce ps w₁ in (w₂, out₁ ++ out₂)

unfoldable pub run_progress : Bool → List RadioPacket → RecvWindow → ℕ
unfolding progress
run_progress enforce [] w = 0
run_progress enforce (p ∷ ps) w =
    progress enforce p w + run_progress enforce ps (recv_data enforce p w).0

-- The conditions of `recv_data-IsValid` at each packet that arrives, all to stay in order.
abbrev pub AllFit : Bool → List RadioPacket → RecvWindow → Type 0
AllFit enforce [] w = Unit {0}
AllFit enforce (p ∷ ps) w =
    (p.seq < 65536)
    × UnacksFit p.control w
    × IsNear p.seq (handle_set_unack p.control w)
    × ((not enforce && not p.is_tcp) ≡ false)
    × AllFit enforce ps (recv_data enforce p w).0

-- However packets that must stay in order are lost, repeated and reordered on their way to a valid
-- window, they are delivered in the order of their positions in the sender's stream, no position
-- twice and none that the window has not moved past. Positions are counted without wrap from that of
-- the window's `ack`. Each packet meets, when it arrives, the conditions on its distance from the
-- window under which the window stays valid.
pub run-Delivers :
    (enforce : Bool) (ps : List RadioPacket) (w : RecvWindow) (u : ℕ)
    → IsValid w
    → w.ack ≡ u % 65536
    → AllFit enforce ps w
    → Delivers (u + run_progress enforce ps w) u (run enforce ps w).1
unfolding run run_progress progress recv_data
run-Delivers enforce [] w u v h f = done (omega arith)
run-Delivers enforce (p ∷ ps) w u v h f =
    let w₁ = handle_set_unack p.control w in
    let v₁ = handle_set_unack-IsValid p.control w f.1 v in
    let w₂ = (recv_data enforce p w).0 in
    let v₂ = recv_data-IsValid enforce p w f.0 v f.1 f.2 in
    let u₁ = u + diff w₁.ack w.ack in
    let u₂ = u₁ + diff w₂.ack w₁.ack in
    let first =
      recv_opened-Delivers enforce p w₁ f.0 v₁ f.2 u₁ f.3
        (omega (arith, v.filed.ack_lt, v₁.filed.ack_lt)) in
    let rest =
      run-Delivers enforce ps w₂ u₂ v₂ (omega (arith, v₁.filed.ack_lt, v₂.filed.ack_lt, h)) f.4 in
    let total : u₂ + run_progress enforce ps w₂
        ≡ u + (progress enforce p w + run_progress enforce ps w₂) =
      omega arith in
    subst (λ (t : ℕ). Delivers t u (run enforce (p ∷ ps) w).1) total
      (Delivers_later u (omega arith)
        (Delivers-append (u₂ + run_progress enforce ps w₂) (run enforce ps w₂).1 first rest))
