-- ===== src/Arq/Recv/Tests.antt =====
-- Runs of the receive window, and its theorems at concrete inputs: a window of four numbers that
-- begins at 65534 and wraps.
use Prim.Native.Nat.{◌∣◌}
use native.Mathlib.Nat.{dvd_of_mod-eq-zero}
use dragonradio.Prelude.{◌+◌, ◌≡◌, refl, true, false, List, [], ◌∷◌, map, arith}
use dragonradio.Seq.{Seq, lt, le, gt, ge}
use dragonradio.Packet.{RadioPacket, ControlMsg, set_unack}
use dragonradio.Arq.Recv.{RecvWindow, new_window, recv_data}
use dragonradio.Arq.Recv.Loops.{IsValid}
use dragonradio.Arq.Recv.Drain.{Delivers}
use dragonradio.Arq.Recv.Receive.{recv_data-IsValid, new_window-IsValid}
use dragonradio.Arq.Recv.Stall.{Stalled, run-Stalled}
use dragonradio.Arq.Recv.Order.{run, run_progress, run-Delivers, AllFit}

abbrev tcp : Seq → List ControlMsg → RadioPacket
tcp seq control = record {
  hdr = record {
    curhop = 1;
    nexthop = 2;
    seq = seq;
    syn = false;
    ack_flag = false;
    ack = 0;
    data_len = 10;
  };
  is_tcp = true;
  timestamp = 0;
  control = control;
  body = 0;
}

abbrev seqs : List RadioPacket → List Seq
seqs = map (λ p. p.seq)

abbrev start : RecvWindow
unfolding new_window
start = new_window 65534 4

divides : 4 ∣ 65536
divides = dvd_of_mod-eq-zero 4 refl

start-IsValid : IsValid (new_window 65534 4)
start-IsValid = (new_window-IsValid 65534 4 (omega arith) divides (omega arith) (omega arith)).0

-- 0 arrives first, then 65535, a repetition, and 65534, which lets all three go.
abbrev arrivals : List RadioPacket
arrivals = tcp 0 [] ∷ tcp 65535 [] ∷ tcp 0 [] ∷ tcp 65534 [] ∷ []

run-arrivals : seqs (run false arrivals (new_window 65534 4)).1 ≡ 65534 ∷ 65535 ∷ 0 ∷ []
unfolding run new_window recv_data lt le gt ge
run-arrivals = refl

arrivals-AllFit : AllFit false arrivals (new_window 65534 4)
unfolding new_window recv_data lt le gt ge
arrivals-AllFit = (
  omega arith,
  tt,
  (λ e. cc),
  refl,
  (
    omega arith,
    tt,
    (λ e. cc),
    refl,
    (omega arith, tt, (λ e. cc), refl, (omega arith, tt, (λ e. cc), refl, tt)),
  ),
)

run-Delivers_example :
    Delivers
      (65534 + run_progress false arrivals (new_window 65534 4))
      65534
      (run false arrivals (new_window 65534 4)).1
run-Delivers_example =
    run-Delivers false arrivals (new_window 65534 4) 65534 start-IsValid (unfold new_window in refl)
      arrivals-AllFit

recv_data-IsValid_example : IsValid (recv_data false (tcp 65535 []) (new_window 65534 4)).0
recv_data-IsValid_example =
    recv_data-IsValid false (tcp 65535 []) (new_window 65534 4) (omega arith) start-IsValid tt
      (unfold new_window recv_data ge in λ e. cc)

-- 65535 has arrived ahead of 65534.
abbrev ahead : RecvWindow
ahead = (recv_data false (tcp 65535 []) (new_window 65534 4)).0

-- The sender gives up 65534 and repeats 65535, twice.
abbrev repeated : RadioPacket
repeated = tcp 65535 (set_unack 65535 ∷ [])

run-Stalled_example : Stalled 65535 ahead (run false (repeated ∷ repeated ∷ []) ahead)
run-Stalled_example =
    run-Stalled false 65535 repeated (repeated ∷ []) ahead recv_data-IsValid_example (omega arith)
      (unfold new_window recv_data lt le gt ge in refl)
      (unfold new_window recv_data lt le gt ge in omega arith)
      (unfold new_window recv_data lt le gt ge in refl) (refl, refl, (refl, refl, tt))
