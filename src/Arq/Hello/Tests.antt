-- ===== src/Arq/Hello/Tests.antt =====
-- The time master, node 1, has heard twice of node 2 and never of node 3.
use dragonradio.Prelude.{ℕ, ◌≡◌, refl, false, some, [], ◌∷◌, ◌++◌, arith, if◌then◌else◌, ◌==◌}
use dragonradio.Packet.{NetPacket}
use dragonradio.Arq.Sample.{local}
use dragonradio.Arq.Hello.{Stamp, Clocks, latest, handle_ctrl_timestamp_echos, broadcast_hello}
use dragonradio.Arq.Hello.Heeded.{occurrences, own, broadcast_hello_echo}

abbrev stamp : ℕ → Stamp
stamp t = record {
  t_sent = record { secs = t; frac_secs = 0 };
  t_recv = record { secs = t; frac_secs = 7 };
}

abbrev clocks : Clocks
clocks = record {
  nodes = λ n. record {
    is_gateway = false;
    timestamps = if n == 2 then stamp 10 ∷ stamp 20 ∷ [] else [];
  };
  echoed_timestamps = [];
}

once : occurrences 2 (1 ∷ 2 ∷ 3 ∷ []) ≡ 1
unfolding occurrences
once = refl

broadcast_hello_echo_example :
    (p : NetPacket) × (broadcast_hello local (some 1) (1 ∷ 2 ∷ 3 ∷ []) clocks ≡ some p)
    × (handle_ctrl_timestamp_echos 2 (some 1) p.curhop p.control []
        ≡ [] ++ own (latest (clocks.nodes 2).timestamps))
broadcast_hello_echo_example =
    broadcast_hello_echo local (1 ∷ 2 ∷ 3 ∷ []) clocks 2 [] refl refl (omega arith) once
