-- ===== src/Lib.antt =====
-- A model of the parts of DragonRadio, a software-defined radio, that carry its data link logic.
--
-- The parts and how they interact. The network puts packets on a queue (src/net/SimpleQueue.hh). The
-- controller (src/mac/SmartController.cc) pulls them, gives each a sequence number (src/Seq.hh),
-- keeps it in the send window of its destination until it is acknowledged, and hands it to the
-- physical layer. Received packets go through the receive window of their sender, which delivers
-- them in order; timers (src/TimerQueue.cc) ask for acknowledgements and retransmissions, and the
-- losses that are reported choose the modulation. Acknowledgements and other control messages travel
-- in the packets (src/Packet.cc). Before it is queued, a packet is given its hops (src/net/NetFilter.cc)
-- and its headers are compressed (src/net/PacketCompressor.cc); a received one is decompressed. Other threads exchange work over src/SafeQueue.hh and
-- src/ringbuffer.hh.
--
-- The files. Seq: `struct Seq`, with the circular order. Packet: the headers, `ControlMsg` and the
-- fields that the controller reads; Packet/Control: the bytes of the control messages, the iterator
-- over them and `appendControl`, `removeLastControl` and their kin. Arq/Recv: `RecvWindow` and the part
-- of `received` that fills and drains it, with `advanceRecvWindow` and `handleSetUnack`. Arq/Send:
-- `SendWindow`, `handleACK`, the ACK part of `received`, `advanceSendWindow`, `drop` and `retransmit`.
-- Arq/Transmit: `getPacket` and the part of `pull` that keeps a packet in the send window.
-- Arq/Feedback: the selective ACKs of `appendFeedback`, `handleNAK` and `handleReceiverStats`;
-- Arq/Selective: `handleSelectiveACK`. Arq/Amc: `updateMCS` and what it calls. Arq/Timers: the timer of
-- a receive window, `ack`, `nak` and `transmitted`. Arq/Hello: `broadcastHello` and the timestamps.
-- Arq/Windows: the maps of windows. Arq/Controller: `received` and `retransmitOnTimeout`; Arq/Pull:
-- `pull`, with `getPacket`; Arq/Sample: settings for the tests. Heap and TimerQueue: src/heap.hh
-- and src/TimerQueue.cc. Estimator: src/stats/Estimator.hh and
-- src/stats/TimeWindowEstimator.hh. Double is the interface to the arithmetic
-- of `double`, Recent a lemma on rings that two modules use.
-- Compress: src/net/PacketCompressor.cc, with the header accessors of src/Packet.hh and src/Packet.cc;
-- Compress/Pack is `compress`, Compress/Unpack `decompress`, Compress/Checksum and Compress/Crc their
-- checksums, Compress/Info is `initMGENInfo`. Compress/RoundTrip follows a packet through both,
-- Compress/Shifted one that comes back with other addresses, and Compress/Null one on which `compress`
-- follows a null pointer. The tests of the headers read a byte behind the packet's end as 0.
-- NetFilter: src/net/NetFilter.cc, NetFilter/Passed with the compressor behind it.
-- RingBuffer, SafeQueue and SimpleQueue: the classes of those names, the last with `canPop` of
-- src/net/Queue.hh. Prelude: what these share. A function of the model carries the source's name in
-- snake_case, takes the state and returns the new state with what it pushes or calls.
--
-- Bounds and fuel. A sequence number is a number below 65536, and every operation on it wraps there.
-- Windows are smaller than 32768, so that the circular order can tell what lies before a window from
-- what lies behind it, and a receive window's size divides 65536, without which two numbers of one
-- window share a place. The loops over sequence numbers run on fuel that is the distance of the two
-- ends, which is the number of rounds that the C++ loops make; the iterator over control messages
-- runs on one round more than there are messages. The loops of the heap run on its size, the search
-- for a valid modulation on the size of the table, and the timer queue on any fuel above the number of
-- its timers. The compressor's bytes are numbers below 256, and its lengths wrap as the C++ types do.
-- A `double` is any type with the operations of Double, and where a theorem needs exact
-- sums it says so. Times are whole microseconds.
--
-- Not modelled: locks, since each method runs under the lock of its object, so that the calls of all
-- threads are taken one after the other; the controller's calls of the estimators over a time window,
-- whose answers are arguments; logging; the physical layers and the signal processing; the MAC threads
-- that follow the clock; the queue with mandates; the interfaces to the network, the hardware and Python.
pub mod Prelude
pub mod Seq
pub mod Packet
pub mod Arq
pub mod RingBuffer
pub mod SafeQueue
pub mod SimpleQueue
pub mod Recent
pub mod Double
pub mod Estimator
pub mod Heap
pub mod TimerQueue
pub mod Compress
pub mod NetFilter
