-- ===== src/SimpleQueue/Scan.antt =====
-- The loops of `SimpleQueue::pop`: which packet they take and what they leave.
use dragonradio.Prelude.{
  ℕ, ◌≡◌, refl, ap, inl, inr, Bool, true, false, not, ◌&&◌, ◌||◌, Option, none, some, List, [], ◌∷◌,
  ◌++◌, if◌then◌else◌, Bool-cases,
}
use dragonradio.Packet.{should_drop}
use dragonradio.SimpleQueue.{SimpleQueue, Item, can_pop, scan}

-- The packets that are not dropped.
abbrev pub kept : ℕ → List Item → List Item
kept now [] = []
kept now (i ∷ is) = if should_drop i.pkt now then kept now is else i ∷ kept now is

-- Every packet is dropped or has to wait for its window.
abbrev pub passed : SimpleQueue → ℕ → List Item → Bool
passed s now [] = true
passed s now (i ∷ is) = (should_drop i.pkt now || not (can_pop s i)) && passed s now is

-- The loop took the first packet that need not be dropped and may go, dropping late ones before it;
-- or there is none, and it dropped all that are late.
pub record Taken (s : SimpleQueue) (now : ℕ) (is : List Item) (i : Item) (rest : List Item)
    : Type 0 where
  pub before : List Item
  pub after : List Item
  pub split : is ≡ before ++ i ∷ after
  pub first : passed s now before ≡ true
  pub live : should_drop i.pkt now ≡ false
  pub may_go : can_pop s i ≡ true
  pub left : rest ≡ kept now before ++ after

abbrev pub Scanned : SimpleQueue → ℕ → List Item → Option Item × List Item → Type 0
Scanned s now is (none, rest) = (passed s now is ≡ true) × (rest ≡ kept now is)
Scanned s now is (some i, rest) = Taken s now is i rest

scan_dropped :
    (s : SimpleQueue) (now : ℕ) (j : Item) (is : List Item) (r : Option Item × List Item)
    → should_drop j.pkt now ≡ true
    → Scanned s now is r
    → Scanned s now (j ∷ is) r
scan_dropped s now j is (none, rest) e h = (rw e h.0, rw e h.1)
scan_dropped s now j is (some i, rest) e h = record {
  before = j ∷ h.before;
  after = h.after;
  split = ap (◌∷◌ j) h.split;
  first = rw e h.first;
  live = h.live;
  may_go = h.may_go;
  left = rw e h.left;
}

scan_waits :
    (s : SimpleQueue) (now : ℕ) (j : Item) (is : List Item) (r : Option Item × List Item)
    → should_drop j.pkt now ≡ false
    → can_pop s j ≡ false
    → Scanned s now is r
    → Scanned s now (j ∷ is) (r.0, j ∷ r.1)
scan_waits s now j is (none, rest) e c h = (rw (e, c) h.0, rw e (ap (◌∷◌ j) h.1))
scan_waits s now j is (some i, rest) e c h = record {
  before = j ∷ h.before;
  after = h.after;
  split = ap (◌∷◌ j) h.split;
  first = rw (e, c) h.first;
  live = h.live;
  may_go = h.may_go;
  left = rw e (ap (◌∷◌ j) h.left);
}

-- The loop takes the first packet whose deadline has not passed and whose window is open, drops the
-- late packets before it and keeps all others in order; without such a packet it drops the late
-- ones only.
pub scan-Scanned : (s : SimpleQueue) (now : ℕ) (is : List Item) → Scanned s now is (scan s now is)
scan-Scanned s now [] = (refl, refl)
scan-Scanned s now (i ∷ is) = elim (Bool-cases (should_drop i.pkt now)) [
  | inl e ↦ rw (e) (scan_dropped s now i is (scan s now is) e (scan-Scanned s now is))
  | inr e ↦ elim (Bool-cases (can_pop s i)) [
    | inl c ↦
        rw (e, c)
          (record {
            before = [];
            after = is;
            split = refl;
            first = refl;
            live = e;
            may_go = c;
            left = refl;
          })
    | inr c ↦ rw (e, c) (scan_waits s now i is (scan s now is) e c (scan-Scanned s now is))
  ]
]
