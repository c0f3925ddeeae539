-- ===== src/Arq/Pull/Acked.antt =====
-- Every packet that `pull` returns acknowledges what this node has of its destination.
use dragonradio.Prelude.{
  ℕ, ◌≡◌, ◌≢◌, inl, inr, refl, sym, ap, ◌∙◌, subst, true, Option, none, some, arith, Bool-cases,
  Option-cases, ◌==◌,
}
use dragonradio.Double.{Doubles}
use dragonradio.Seq.{Seq}
use dragonradio.Packet.{NetPacket, NodeId, Header, ControlMsg, node_broadcast}
use dragonradio.Arq.Send.{SendWindow, outside}
use dragonradio.Arq.Feedback.{append_feedback}
use dragonradio.Arq.Transmit.{TxConfig, keep_sent, outgoing}
use dragonradio.Arq.Timers.{Receiver, Local}
use dragonradio.Arq.Windows.{Settings, Controller, assign, get_send_window}
use dragonradio.Arq.Pull.{Sending, with_ack, address, send_out}

-- What a receive window is to acknowledge.
abbrev pub ack_of : Option Receiver → Option Seq
ack_of none = none
ack_of (some r) = some r.window.ack

with_ack-hdr :
    (l : Local) (st : ControlMsg) (p : NetPacket) (o : Option Receiver) (a : Seq)
    → ack_of o ≡ some a
    → (with_ack l st p o).0.hdr ≡ record (p.hdr) { ack_flag = true; ack = a }
unfolding with_ack append_feedback
with_ack-hdr l st p none a e = absurd (cc e)
with_ack-hdr l st p (some r) a e =
    let same : r.window.ack ≡ a = cc e in
    elim (Bool-cases r.window.need_selective_ack) [
      | inl n ↦
          rw (n, with_ack) (ap (λ (t : Seq). record (p.hdr) { ack_flag = true; ack = t }) same)
      | inr n ↦
          rw (n, with_ack) (ap (λ (t : Seq). record (p.hdr) { ack_flag = true; ack = t }) same)
    ]

with_ack-nexthop :
    (l : Local) (st : ControlMsg) (p : NetPacket) (o : Option Receiver)
    → (with_ack l st p o).0.nexthop ≡ p.nexthop
unfolding with_ack append_feedback
with_ack-nexthop l st p none = refl
with_ack-nexthop l st p (some r) = elim (Bool-cases r.window.need_selective_ack) [
  | inl n ↦ rw (n, with_ack) refl
  | inr n ↦ rw (n, with_ack) refl
]

with_ack-ack_of :
    (l : Local) (st : ControlMsg) (p : NetPacket) (o : Option Receiver)
    → ack_of (with_ack l st p o).2 ≡ ack_of o
unfolding with_ack append_feedback
with_ack-ack_of l st p none = refl
with_ack-ack_of l st p (some r) = elim (Bool-cases r.window.need_selective_ack) [
  | inr n ↦ rw (n, with_ack) refl
  | inl n ↦ elim (Bool-cases l.selective_ack) [
    | inl y ↦ rw (n, y, with_ack) refl
    | inr y ↦ rw (n, y, with_ack) refl
  ]
]

same_hdr : (x y : NetPacket) → some x ≡ some y → y.hdr ≡ x.hdr
same_hdr x y e = let same : x ≡ y = cc e in sym (ap (λ (t : NetPacket). t.hdr) same)

keep_sent-hdr :
    (t : TxConfig) (now : ℕ) (p q : NetPacket) (w : SendWindow)
    → (keep_sent t now p w).0 ≡ some q
    → q.hdr ≡ p.hdr
unfolding keep_sent outgoing
keep_sent-hdr t now p q w = elim (Bool-cases (outside w p.seq)) [
  | inl o ↦ rw (o, keep_sent) (λ e. absurd (cc e))
  | inr o ↦ rw (o, keep_sent) (λ e. same_hdr _ q e)
]

module _ (ds : Doubles) where
  -- No receive window has another number to acknowledge.
  pub record SameAcks (c c' : Controller ds) : Type 0 where
    pub at : (n : NodeId) → ack_of (c'.recv n) ≡ ack_of (c.recv n)

  pub get_send_window-recv :
      (s : Settings ds) (n : NodeId) (c : Controller ds)
      → (get_send_window ds s n c).1.recv ≡ c.recv
  unfolding get_send_window
  get_send_window-recv s n c = elim (Option-cases (c.send n)) [
    | inl e ↦ rw (e, get_send_window) refl
    | inr (r, e) ↦ rw (e, get_send_window) refl
  ]

  -- A packet answers its destination.
  unfoldable pub Answers : Controller ds → NetPacket → Type 0
  Answers c q =
      q.nexthop ≢ node_broadcast
      → (a : Seq) → ack_of (c.recv q.nexthop) ≡ some a
      → (q.ack_flag ≡ true) × (q.ack ≡ a)

  Answers-by :
      (s : Settings ds) (e : Sending) (p q : NetPacket) (c : Controller ds)
      → q.hdr ≡ (with_ack s.here (e.stats p.nexthop) p (c.recv p.nexthop)).0.hdr
      → Answers c q
  unfolding Answers
  Answers-by s e p q c h nb a k =
      let o = c.recv p.nexthop in
      let same : q.nexthop ≡ p.nexthop =
        ap (λ (x : Header). x.nexthop) h ∙ with_ack-nexthop s.here (e.stats p.nexthop) p o in
      let k' : ack_of o ≡ some a = subst (λ (n : ℕ). ack_of (c.recv n) ≡ some a) same k in
      let all = h ∙ with_ack-hdr s.here (e.stats p.nexthop) p o a k' in
      (ap (λ (x : Header). x.ack_flag) all, ap (λ (x : Header). x.ack) all)

  address-Answers :
      (s : Settings ds) (e : Sending) (p q : NetPacket) (c : Controller ds)
      → (address ds s e p c).0 ≡ some q
      → Answers c q
  unfolding address
  address-Answers s e p q c = elim (Bool-cases (p.data_len == 0)) [
    | inl z ↦ rw z (λ h. Answers-by s e p q c (same_hdr _ q h))
    | inr z ↦ rw z (λ h. Answers-by s e p q c (keep_sent-hdr (e.tx p.nexthop) e.now _ q _ h))
  ]

  pub send_out-Answers :
      (s : Settings ds) (e : Sending) (p q : NetPacket) (c : Controller ds)
      → (send_out ds s e p c).0 ≡ some q
      → Answers c q
  unfolding send_out Answers
  send_out-Answers s e p q c = elim (Bool-cases (p.nexthop == node_broadcast)) [
    | inr z ↦ rw z (λ h. address-Answers s e p q c h)
    | inl z ↦ rw z (λ h nb.
        let same : q.nexthop ≡ p.nexthop = ap (λ (x : Header). x.nexthop) (same_hdr _ q h) in
        absurd (nb (same ∙ ground arith)))
  ]

  -- The steps before a packet goes out.
  pub SameAcks-trans : (a b c : Controller ds) → SameAcks a b → SameAcks b c → SameAcks a c
  SameAcks-trans a b c x y = record { at = λ n. y.at n ∙ x.at n }

  pub SameAcks-recv : (c c' : Controller ds) → c'.recv ≡ c.recv → SameAcks c c'
  SameAcks-recv c c' e = record { at = λ n. ap (λ (f : NodeId → Option Receiver). ack_of (f n)) e }

  address-SameAcks :
      (s : Settings ds) (e : Sending) (p : NetPacket) (c : Controller ds)
      → SameAcks c (address ds s e p c).2
  unfolding address
  address-SameAcks s e p c =
      let n = p.nexthop in
      let r = with_ack s.here (e.stats p.nexthop) p (c.recv n) in
      let c₁ = record c { recv = assign n r.2 c.recv } in
      let first : SameAcks c c₁ = record {
        at = λ k. elim (Bool-cases (k == n)) [
          | inl y ↦
              let own : k ≡ n = ground arith in
              rw y (
                with_ack-ack_of s.here (e.stats p.nexthop) p (c.recv n)
                ∙ ap (λ (t : ℕ). ack_of (c.recv t)) (sym own))
          | inr y ↦ rw y refl
        ];
      } in
      elim (Bool-cases (p.data_len == 0)) [
        | inl z ↦ rw z first
        | inr z ↦
            rw z (SameAcks-trans c c₁ _ first (SameAcks-recv c₁ _ (get_send_window-recv s n c₁)))
      ]

  pub send_out-SameAcks :
      (s : Settings ds) (e : Sending) (p : NetPacket) (c : Controller ds)
      → SameAcks c (send_out ds s e p c).2
  unfolding send_out
  send_out-SameAcks s e p c = elim (Bool-cases (p.nexthop == node_broadcast)) [
    | inl z ↦ rw z (SameAcks-recv c c refl)
    | inr z ↦ rw z (address-SameAcks s e p c)
  ]
