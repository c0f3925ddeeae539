-- ===== src/Arq/Timers/Rate.antt =====
-- How often a receiver sends an explicit NAK.
use dragonradio.Prelude.{
  ℕ, zero, suc, ◌+◌, ◌-◌, ◌%◌, ◌≤◌, ◌<◌, ◌≡◌, inl, inr, sym, ◌∙◌, subst, not, ◌||◌, Option, none,
  some, List, [], ◌∷◌, arith, Bool-cases, length, get_or, length-replicate, get_or-replicate, ◌==◌,
  ltb,
}
use native.Mathlib.Nat.{mod-lt}
use dragonradio.Recent.{place-step, IsRecent, push-IsRecent, oldest}
use dragonradio.Seq.{Seq}
use dragonradio.Packet.{NetPacket, NodeId, ControlMsg}
use dragonradio.Arq.Timers.{Receiver, Local, new_receiver, nak}

-- A call of `nak`, and what else happens to the receive window before it.
pub record Attempt : Type 0 where
  pub stats : ControlMsg
  pub now : ℕ
  pub seq : Seq

abbrev sent_or_not : ℕ → Option NetPacket → List ℕ → List ℕ
sent_or_not now none ts = ts
sent_or_not now (some p) ts = now ∷ ts

-- When the NAKs went out, latest first, and the receiver, after a list of calls, latest first.
unfoldable pub attempts : Local → List Attempt → Receiver → List ℕ × Receiver
attempts l [] r = ([], r)
attempts l (a ∷ earlier) r =
    let (ts, r₁) = attempts l earlier r in
    let (o, r₂) = nak l a.stats a.now a.seq r₁ in (sent_or_not a.now o ts, r₂)

-- Between a NAK and the one that is `n` before it there is at least a duration.
pub IsSpaced : ℕ → ℕ → List ℕ → Type 0
IsSpaced n duration ts =
    (k : ℕ) → k + n < length ts → get_or ts (k + n) 0 + duration ≤ get_or ts k 0

IsSpaced-next :
    (m duration t : ℕ) (ts : List ℕ)
    → IsSpaced (suc m) duration ts
    → get_or ts m 0 + duration ≤ t
    → IsSpaced (suc m) duration (t ∷ ts)
unfolding IsSpaced
IsSpaced-next m duration t ts h e zero hk = let i : zero + suc m ≡ suc m = omega arith in rw i e
IsSpaced-next m duration t ts h e (suc k) hk =
    let i : suc k + suc m ≡ suc (k + suc m) = omega arith in rw i (h k (omega arith))

module _ (l : Local) (m : ℕ) (size : l.explicit_nak_win_size ≡ suc m) where
  record Held (ts : List ℕ) (r : Receiver) : Type 0 where
    pub ring : IsRecent m 0 r.explicit_nak_win r.explicit_nak_idx ts
    pub index : r.explicit_nak_idx ≤ m
    pub spaced : IsSpaced (suc m) l.explicit_nak_win_duration ts

  nak-Held :
      (a : Attempt) (ts : List ℕ) (r : Receiver)
      → Held ts r
      → let (o, r') = nak l a.stats a.now a.seq r in Held (sent_or_not a.now o ts) r'
  unfolding nak
  nak-Held a ts r h =
      let i = r.explicit_nak_idx in
      let wrapped : (i + 1) % suc m < suc m = mod-lt (i + 1) (omega arith) in
      elim (Bool-cases (not l.has_queue || not l.can_transmit)) [
        | inl e ↦ rw e h
        | inr e ↦ elim (Bool-cases (length r.explicit_nak_win == 0)) [
          | inl f ↦ rw (e, f) h
          | inr f ↦
              elim (Bool-cases (
                ltb a.now
                  (get_or r.explicit_nak_win r.explicit_nak_idx 0 + l.explicit_nak_win_duration))) [
                    | inl g ↦ rw (e, f, g) h
                    | inr g ↦
                        rw (e, f, g)
                          (record {
                            ring = rw size (
                                push-IsRecent m 0 r.explicit_nak_win i ((i + 1) % suc m) ts a.now
                                  h.index (place-step i m h.index) h.ring);
                            index = rw size (omega (arith, wrapped));
                            spaced =
                                let old = oldest m 0 r.explicit_nak_win i ts h.index h.ring in
                                IsSpaced-next m l.explicit_nak_win_duration a.now ts h.spaced
                                  (ground (arith, old));
                          })
                  ]
        ]
      ]

  attempts-Held :
      (calls : List Attempt) (r : Receiver)
      → Held [] r
      → Held (attempts l calls r).0 (attempts l calls r).1
  unfolding attempts
  attempts-Held [] r h = h
  attempts-Held (a ∷ earlier) r h =
      nak-Held a (attempts l earlier r).0 (attempts l earlier r).1 (attempts-Held earlier r h)

new-Held :
    (l : Local) (m : ℕ) (size : l.explicit_nak_win_size ≡ suc m) (node : NodeId) (seq : Seq)
    (win : ℕ)
    → Held l m size [] (new_receiver node seq win l.explicit_nak_win_size)
unfolding new_receiver IsSpaced
new-Held l m size node seq win = record {
  ring = record {
    size = length-replicate l.explicit_nak_win_size 0 ∙ size;
    recent = λ k h. get_or-replicate l.explicit_nak_win_size 0 _;
  };
  index = omega arith;
  spaced = λ k h. absurd (omega arith);
}

-- However often a receiver is asked for an explicit NAK, and at whatever instants, no NAK goes out
-- sooner than the set duration after the one that is as many before it as the ring has places: no more
-- than that many go out in any duration. The ring is that of a new receive window and the number of
-- places has not been set anew since.
pub nak_rate :
    (l : Local) (calls : List Attempt) (node : NodeId) (seq : Seq) (win : ℕ)
    → 0 < l.explicit_nak_win_size
    → IsSpaced l.explicit_nak_win_size l.explicit_nak_win_duration
        (attempts l calls (new_receiver node seq win l.explicit_nak_win_size)).0
nak_rate l calls node seq win h =
    let m = l.explicit_nak_win_size - 1 in
    let size : l.explicit_nak_win_size ≡ suc m = omega arith in
    let r = new_receiver node seq win l.explicit_nak_win_size in
    let v = attempts-Held l m size calls r (new-Held l m size node seq win) in
    subst (λ (n : ℕ). IsSpaced n l.explicit_nak_win_duration (attempts l calls r).0) (sym size)
      v.spaced
