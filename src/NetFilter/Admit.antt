-- ===== src/NetFilter/Admit.antt =====
-- What `process` lets through, and what it sets.
use Prim.Native.Nat.{bit_and}
use dragonradio.Prelude.{
  ℕ, ◌+◌, ◌/◌, ◌%◌, ◌≡◌, ◌⊎◌, inl, inr, refl, ◌∙◌, subst, Bool, true, false, ◌&&◌, ◌||◌, none, some,
  arith, ◌==◌, Bool-cases,
}
use dragonradio.Compress.{Packet, byte, slice, net16, net32, ethertype_ip}
use dragonradio.Compress.Masks.{and-low_byte}
use dragonradio.NetFilter.{NetFilter, may_transmit, is_ethernet_broadcast, ext_node, process}
use dragonradio.NetFilter.Hops.{hops, process-hops}

-- The addresses of the IP header of `p` are those of a network, and `q` has their nodes.
pub data Nodes (f : NetFilter) (p q : Packet) : Type 0 where
  of_internal :
      bit_and (net32 26 p.bytes) f.int_netmask ≡ f.int_net
      → q.src ≡ net32 26 p.bytes % 256
      → q.dest ≡ net32 30 p.bytes % 256
      → Nodes f p q
  of_external :
      bit_and (net32 26 p.bytes) f.ext_netmask ≡ f.ext_net
      → (q.src + 100) % 256 ≡ net32 26 p.bytes / 256 % 256
      → (q.dest + 100) % 256 ≡ net32 30 p.bytes / 256 % 256
      → Nodes f p q

pub record Admitted (f g : NetFilter) (p q : Packet) : Type 0 where
  pub is_ip : net16 12 p.bytes ≡ 0x0800
  pub allowed :
      (is_ethernet_broadcast (slice 0 6 p.bytes) ≡ true)
      ⊎ ((q.curhop ≡ f.my_node_id) × (f.contains q.nexthop ≡ true))
  pub from : q.curhop ≡ byte 11 p.bytes
  pub to : q.nexthop ≡ byte 5 p.bytes
  pub nodes : Nodes f p q
  pub unchanged : q.bytes ≡ p.bytes
  pub any_broadcast : process g p ≡ some q

transmits-ip : (f : NetFilter) (p : Packet) → may_transmit f p ≡ true → net16 12 p.bytes ≡ 0x0800
transmits-ip f p h = ground arith

transmits-allowed :
    (f : NetFilter) (p : Packet)
    → may_transmit f p ≡ true
    → (is_ethernet_broadcast (slice 0 6 p.bytes) ≡ true)
      ⊎ ((byte 11 p.bytes ≡ f.my_node_id) × (f.contains (byte 5 p.bytes) ≡ true))
transmits-allowed f p h = cases (net16 12 p.bytes == ethertype_ip) _ _ _ _ h
  where
    cases :
        (a b : Bool) (x y : ℕ) (c : Bool)
        → (a && (b || (x == y && c))) ≡ true
        → (b ≡ true) ⊎ ((x ≡ y) × (c ≡ true))
    cases a true x y c h = inl refl
    cases a false x y c h = inr (ground arith, ground arith)

ext_node_back : (addr : ℕ) → (ext_node addr + 100) % 256 ≡ addr / 256 % 256
ext_node_back addr = omega (arith, and-low_byte (addr / 256))

-- A filter with other broadcast addresses.
abbrev pub with_broadcasts : ℕ → ℕ → NetFilter → NetFilter
with_broadcasts i e f = record f { int_broadcast = i; ext_broadcast = e }

module _ (f : NetFilter) (i e : ℕ) (p : Packet) (t : may_transmit f p ≡ true) where
  abbrev a : ℕ
  a = net32 26 p.bytes

  abbrev b : ℕ
  b = net32 30 p.bytes

  hops-Admitted :
      (s d : ℕ)
      → Nodes f p (hops p s d)
      → process (with_broadcasts i e f) p ≡ some (hops p s d)
      → Admitted f (with_broadcasts i e f) p (hops p s d)
  hops-Admitted s d n o = record {
    is_ip = transmits-ip f p t;
    allowed = transmits-allowed f p t;
    from = refl;
    to = refl;
    nodes = n;
    unchanged = refl;
    any_broadcast = o;
  }

  admitted : (q : Packet) → process f p ≡ some q → Admitted f (with_broadcasts i e f) p q
  admitted q h = elim (Bool-cases (bit_and a f.int_netmask == f.int_net)) [
    | inl x ↦
        let here : process f p ≡ some (hops p (bit_and a 0xff) (bit_and b 0xff)) =
          process-hops f p ∙ rw (t, x) refl in
        let there : process (with_broadcasts i e f) p
            ≡ some (hops p (bit_and a 0xff) (bit_and b 0xff)) =
          process-hops (with_broadcasts i e f) p ∙ rw (t, x) refl in
        let net : bit_and a f.int_netmask ≡ f.int_net = ground arith in
        let same : hops p (bit_and a 0xff) (bit_and b 0xff) ≡ q = cc (here, h) in
        subst (Admitted f (with_broadcasts i e f) p) same (
          hops-Admitted (bit_and a 0xff) (bit_and b 0xff)
            (of_internal net (and-low_byte a) (and-low_byte b)) there)
    | inr x ↦ elim (Bool-cases (bit_and a f.ext_netmask == f.ext_net)) [
      | inl y ↦
          let here : process f p ≡ some (hops p (ext_node a) (ext_node b)) =
            process-hops f p ∙ rw (t, x, y) refl in
          let there : process (with_broadcasts i e f) p ≡ some (hops p (ext_node a) (ext_node b)) =
            process-hops (with_broadcasts i e f) p ∙ rw (t, x, y) refl in
          let net : bit_and a f.ext_netmask ≡ f.ext_net = ground arith in
          let same : hops p (ext_node a) (ext_node b) ≡ q = cc (here, h) in
          subst (Admitted f (with_broadcasts i e f) p) same (
            hops-Admitted (ext_node a) (ext_node b)
              (of_external net (ext_node_back a) (ext_node_back b)) there)
      | inr y ↦
          let gone : process f p ≡ none = process-hops f p ∙ rw (t, x, y) refl in
          absurd (cc (h, gone))
    ]
  ]

-- A packet that `process` passes is an IP packet, it is an Ethernet broadcast or comes from this node
-- and goes to a node that the network knows, its hops are the last octets of the Ethernet addresses,
-- its source and destination are the nodes of the IP addresses by the network that the source is of,
-- and its bytes are what they were. With any other broadcast addresses `process` gives the same.
pub process-Admitted :
    (f : NetFilter) (i e : ℕ) (p q : Packet)
    → process f p ≡ some q
    → Admitted f (with_broadcasts i e f) p q
process-Admitted f i e p q h = elim (Bool-cases (may_transmit f p)) [
  | inr n ↦ let gone : process f p ≡ none = process-hops f p ∙ rw n refl in absurd (cc (h, gone))
  | inl t ↦ admitted f i e p t q h
]
