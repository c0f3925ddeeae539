-- ===== src/SimpleQueue/Tests.antt =====
-- A queue with a late packet, one that waits for its window, and one that may go.
use dragonradio.Prelude.{ℕ, ◌⊎◌, ◌≡◌, refl, true, false, Option, none, some, []}
use dragonradio.Packet.{should_drop, deadline_passed, node_broadcast}
use dragonradio.SimpleQueue.{
  SimpleQueue, Item, new_queue, push, pop, can_pop, set_send_window_status, fifo, lifo, scan_q,
  scan_lifo, is_open,
}
use dragonradio.SimpleQueue.Scan.{passed}
use dragonradio.SimpleQueue.Pop.{pop_sound, pop_complete}

abbrev item : ℕ → Option ℕ → Item
item nexthop deadline = record {
  pkt = record {
    hdr = record {
      curhop = 1;
      nexthop = nexthop;
      seq = 0;
      syn = false;
      ack_flag = false;
      ack = 0;
      data_len = 10;
    };
    retransmission = false;
    has_seq = false;
    deadline = deadline;
    mcsidx = 0;
    nretrans = 0;
    control = [];
    body = 0;
  };
  flow_uid = none;
}

-- Node 3's window is closed.
abbrev queue : SimpleQueue
unfolding new_queue push set_send_window_status
queue = set_send_window_status 3 false (
    push (item 4 none)
      (push (item 2 none) (push (item 3 none) (push (item 2 (some 5)) (new_queue fifo)))))

pop_sound_example :
    (should_drop (item 2 none).pkt 9 ≡ false)
    × (((item 2 none).pkt.nexthop ≡ node_broadcast)
        ⊎ ((item 2 none).pkt.has_seq ≡ true)
        ⊎ (is_open (queue.send_window_status (item 2 none).pkt.nexthop) ≡ true))
pop_sound_example = pop_sound 9 queue (item 2 none) (
    unfold queue pop new_queue push set_send_window_status can_pop should_drop deadline_passed
      scan_q in
    refl)

-- Only the packet that waits is left.
abbrev waiting : SimpleQueue
unfolding new_queue push set_send_window_status
waiting = set_send_window_status 3 false (push (item 3 none) (new_queue lifo))

pop_complete_example : (passed waiting 9 waiting.hiq ≡ true) × (passed waiting 9 waiting.q ≡ true)
pop_complete_example =
    pop_complete 9 waiting (unfold waiting new_queue push set_send_window_status in refl)
      (unfold waiting new_queue push set_send_window_status in refl)
      (unfold waiting pop new_queue push set_send_window_status can_pop should_drop deadline_passed
          scan_q scan_lifo in
        refl)
