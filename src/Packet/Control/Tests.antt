-- ===== src/Packet/Control/Tests.antt =====
-- Control messages of a small packet: a header of six bytes and two bytes of data.
use dragonradio.Prelude.{ℕ, ◌≡◌, refl, true, none, some, List, [], ◌∷◌, map, arith}
use dragonradio.Packet.{nak, set_unack}
use dragonradio.Packet.Control.{encode, messages, integrity_intact}
use dragonradio.Packet.Control.Area.{plain, raw}
use dragonradio.Packet.Control.Append.{append_all}
use dragonradio.Packet.Control.Visit.{messages-append_all}
use dragonradio.Packet.Control.Endless.{messages_unknown}

abbrev packet_front : List ℕ
packet_front = 1 ∷ 2 ∷ 0 ∷ 0 ∷ 2 ∷ 0 ∷ 9 ∷ 9 ∷ []

messages-append_all_example :
    messages 3 (append_all (nak 300 ∷ set_unack 7 ∷ []) (plain packet_front))
    ≡ some (map encode (nak 300 ∷ set_unack 7 ∷ []))
messages-append_all_example =
    messages-append_all packet_front (nak 300) (set_unack 7 ∷ []) refl (omega arith)

messages_unknown_example :
    (integrity_intact (raw packet_front 1 (7 ∷ [])) ≡ true)
    × (messages 1000 (raw packet_front 1 (7 ∷ [])) ≡ none)
messages_unknown_example =
    messages_unknown packet_front (7 ∷ []) 1000 refl (omega arith) (omega arith) (omega arith)
