-- ===== src/Router/Arp/Safe.antt =====
-- The runs of the senders and of `give_up`: where they are defined, and what they leave alone.
use mini_internet_computer_n.Base.{
  ℕ, length, ◌≤◌, ◌≡◌, ◌⊎◌, refl, ap, inl, inr, false, Option, none, some, List, [], ◌∷◌, arith,
  ltb, Option-cases,
}
use mini_internet_computer_n.Router.Headers.{Bytes, EthernetHdr, IpHdr, get_ethernet}
use mini_internet_computer_n.Router.Headers.RoundTrip.{get_ethernet_total}
use mini_internet_computer_n.Router.State.{Name, SrIf, SrRt, SrPacket, ArpReq, ArpCache, Sr}
use mini_internet_computer_n.Router.Interfaces.{sr_get_interface}
use mini_internet_computer_n.Router.ArpCache.{sr_arpreq_destroy}
use mini_internet_computer_n.Router.ArpCache.Queue.{Resolves, PacketsOk, IsWaiting}
use mini_internet_computer_n.Router.Send.{
  IcmpError, sr_send_packet, send_icmp_error_packet, error_frame,
}
use mini_internet_computer_n.Router.Arp.{
  sending_interface, interface_of_mac, host_unreachable, all_unreachable, give_up,
}

-- A run that is defined ends in a state with `P`.
abbrev pub Ends : (Sr → Type 0) → Option Sr → Type 0
Ends P none = ⊥
Ends P (some sr) = P sr

pub Ends-bind :
    (m : Option Sr) (k : Sr → Option Sr) (P Q : Sr → Type 0)
    → Ends P m
    → ((sr : Sr) → P sr → Ends Q (k sr))
    → Ends Q (elim m [ none ↦ none | some sr ↦ k sr ])
Ends-bind none k P Q e next = e
Ends-bind (some sr) k P Q e next = next sr e

pub Ends-mono :
    (m : Option Sr) (P Q : Sr → Type 0) → Ends P m → ((sr : Sr) → P sr → Q sr) → Ends Q m
Ends-mono none P Q e weaken = e
Ends-mono (some sr) P Q e weaken = weaken sr e

-- The interfaces are `is`, the routes `es` and the cache `c`: only the wire is not told.
pub record Still (is : List SrIf) (es : List SrRt) (c : ArpCache) (sr : Sr) : Type 0 where
  pub ifs : sr.if_list ≡ is
  pub routes : sr.routing_table ≡ es
  pub cache : sr.cache ≡ c

-- The frame carries the hardware address of an interface of the list, in Ethernet's destination.
abbrev pub IsAddressed : List SrIf → SrPacket → Type 0
IsAddressed is p =
    (eth : EthernetHdr) × (r : Bytes) × (get_ethernet p.buf ≡ some (eth, r))
    × (i : SrIf) × (interface_of_mac eth.ether_dhost is ≡ some i)

abbrev pub SomeAddressed : List SrIf → List SrPacket → Type 0
SomeAddressed is [] = ⊥
SomeAddressed is (p ∷ ps) = IsAddressed is p ⊎ SomeAddressed is ps

unreachable-cases :
    (sr : Sr) (p : SrPacket)
    → 14 ≤ length p.buf
    → (host_unreachable sr p ≡ some sr)
      ⊎ (IsAddressed sr.if_list p × (host_unreachable sr p ≡ none))
unfolding host_unreachable
unreachable-cases sr p l =
    let (eth, r, e, m) = get_ethernet_total p.buf l in
    elim (Option-cases (interface_of_mac eth.ether_dhost sr.if_list)) [
      | inl n ↦ inl (rw (e, host_unreachable) (rw (n, host_unreachable) refl))
      | inr i ↦
          inr ((eth, r, e, i.0, i.1), rw (e, host_unreachable) (rw (i.1, host_unreachable) refl))
    ]

all_unreachable-cases :
    (is : List SrIf) (sr : Sr) (ps : List SrPacket)
    → PacketsOk is ps
    → (all_unreachable sr ps ≡ some sr)
      ⊎ (SomeAddressed sr.if_list ps × (all_unreachable sr ps ≡ none))
unfolding all_unreachable
all_unreachable-cases is sr [] ok = inl refl
all_unreachable-cases is sr (p ∷ ps) ok = elim (unreachable-cases sr p ok.0) [
  | inl same ↦ elim (all_unreachable-cases is sr ps ok.2) [
    | inl rest ↦ inl (rw (same, all_unreachable) rest)
    | inr rest ↦ inr (inr rest.0, rw (same, all_unreachable) rest.1)
  ]
  | inr n ↦ inr (inl n.0, rw (n.1, all_unreachable) refl)
]

module _ (is : List SrIf) (es : List SrRt) (c : ArpCache) where
  abbrev Wf : Sr → Type 0
  Wf = Still is es c

  -- Sending a frame touches the wire alone.
  pub send-Still : (sr : Sr) (buf : Bytes) (name : Name) → Wf sr → Wf (sr_send_packet sr buf name)
  unfolding sr_send_packet
  send-Still sr buf name w = ground arith

  pub error-Ends :
      (sr : Sr) (name : Name) (len dest : ℕ) (eth : EthernetHdr) (ip : IpHdr) (e : IcmpError)
      → 38 ≤ len
      → Resolves is name
      → Wf sr
      → Ends Wf (send_icmp_error_packet sr name len dest eth ip e)
  unfolding send_icmp_error_packet sr_get_interface
  error-Ends sr name len dest eth ip e l (i, r) w =
      let b : ltb len 38 ≡ false = ground arith in
      rw (b, w.ifs, r, send_icmp_error_packet)
        (send-Still sr (error_frame i len dest eth ip e) name w)

  -- The branch that gives a request up leaves the router alone but for the request, or is undefined
  -- where a waiting frame is addressed to an interface.
  pub give_up-cases :
      (sr : Sr) (req : ArpReq)
      → PacketsOk is req.packets
      → Wf sr
      → Ends (Still is es (sr_arpreq_destroy c req.ip)) (give_up sr req)
        ⊎ (SomeAddressed is req.packets × (give_up sr req ≡ none))
  unfolding give_up
  give_up-cases sr req ok w = elim (all_unreachable-cases is sr req.packets ok) [
    | inl same ↦ inl (
        rw (same, give_up)
          (record {
            ifs = w.ifs;
            routes = w.routes;
            cache = ap (λ d. sr_arpreq_destroy d req.ip) w.cache;
          }))
    | inr undefined ↦ inr (rw (← w.ifs) undefined.0, rw (undefined.1, give_up) refl)
  ]

  -- The name of a waiting frame's interface resolves.
  pub sending_Resolves :
      (sr : Sr) (ps : List SrPacket)
      → IsWaiting ps
      → PacketsOk is ps
      → sr.if_list ≡ is
      → (i : SrIf) × (sending_interface sr ps ≡ some i)
  unfolding sending_interface sr_get_interface
  sending_Resolves sr [] n ok e = absurd n
  sending_Resolves sr (p ∷ ps) n ok e = (ok.1.0, rw e ok.1.1)
