-- ===== src/Router/Headers/RoundTrip.antt =====
-- Storing a header and loading it again, and the other way round.
use mini_internet_computer_n.Base.{
  ℕ, ◌+◌, ◌/◌, ◌%◌, ◌^◌, ◌≤◌, ◌<◌, ◌≡◌, refl, ap, Option, none, some, ◌∷◌, arith, length,
}
use mini_internet_computer_n.Checksum.{AreBytes}
use mini_internet_computer_n.Router.Headers.{
  Bytes, EthernetHdr, IpHdr, IcmpHdr, ArpHdr, load16, load32, put_ethernet, put_ip, put_icmp,
  put_arp, get_ethernet, get_ip, get_icmp, get_arp,
}

-- The fields fit their C types.
pub record IsIpHdr (h : IpHdr) : Type 0 where
  pub hl : h.ip_hl < 16
  pub v : h.ip_v < 16
  pub len : h.ip_len < 65536
  pub id : h.ip_id < 65536
  pub off : h.ip_off < 65536
  pub sum : h.ip_sum < 65536
  pub src : h.ip_src < 2 ^ 32
  pub dst : h.ip_dst < 2 ^ 32

load-store16 : (v : ℕ) → v < 65536 → load16 (v % 256) (v / 256 % 256) ≡ v
load-store16 v h = omega arith

load-store32 :
    (v : ℕ)
    → v < 2 ^ 32
    → load32 (v % 256) (v / 256 % 256) (v / 65536 % 256) (v / 16777216 % 256) ≡ v
load-store32 v h = omega arith

get-put_ethernet :
    (h : EthernetHdr) (r : Bytes)
    → h.ether_type < 65536
    → get_ethernet (put_ethernet h r) ≡ some (h, r)
get-put_ethernet h r b =
    ap (λ (t : ℕ). some (record h { ether_type = t }, r)) (load-store16 h.ether_type b)

-- An IP header whose fields fit their widths is what a load of its stored bytes gives back, with
-- what follows it.
get-put_ip : (h : IpHdr) (r : Bytes) → IsIpHdr h → get_ip (put_ip h r) ≡ some (h, r)
get-put_ip h r f = ground arith

get-put_icmp :
    (h : IcmpHdr) (r : Bytes) → h.icmp_sum < 65536 → get_icmp (put_icmp h r) ≡ some (h, r)
get-put_icmp h r b = ground arith

pub record IsArpHdr (h : ArpHdr) : Type 0 where
  pub hrd : h.ar_hrd < 65536
  pub pro : h.ar_pro < 65536
  pub op : h.ar_op < 65536
  pub sip : h.ar_sip < 2 ^ 32
  pub tip : h.ar_tip < 2 ^ 32

-- An ARP header whose fields fit their widths is what a load of its stored bytes gives back, with
-- what follows it.
get-put_arp : (h : ArpHdr) (r : Bytes) → IsArpHdr h → get_arp (put_arp h r) ≡ some (h, r)
get-put_arp h r f = ground arith

-- Storing a loaded struct where it came from.
abbrev put_back : Option (IpHdr × Bytes) → Option Bytes
put_back none = none
put_back (some (h, r)) = some (put_ip h r)

-- Loading an IP header from at least 20 bytes and storing it again gives the same bytes.
put-get_ip : (p : Bytes) → AreBytes p → 20 ≤ length p → put_back (get_ip p) ≡ some p
put-get_ip (a ∷ b ∷ c ∷ d ∷ e ∷ f ∷ g ∷ h ∷ i ∷ j ∷ k ∷ l ∷ m ∷ n ∷ o ∷ p ∷ q ∷ s ∷ t ∷ u ∷ r) w z =
    ground arith
put-get_ip _ w z = absurd (omega arith)

-- A cast of a long enough buffer is defined, and leaves the rest of it.
pub get_ethernet_total :
    (p : Bytes)
    → 14 ≤ length p
    → (h : EthernetHdr) × (r : Bytes) × (get_ethernet p ≡ some (h, r)) × (length p ≡ 14 + length r)
get_ethernet_total (a ∷ b ∷ c ∷ d ∷ e ∷ f ∷ g ∷ h ∷ i ∷ j ∷ k ∷ l ∷ m ∷ n ∷ r) z =
    (_, r, refl, omega arith)
get_ethernet_total _ z = absurd (omega arith)

pub get_ip_total :
    (p : Bytes)
    → 20 ≤ length p
    → (h : IpHdr) × (r : Bytes) × (get_ip p ≡ some (h, r)) × (length p ≡ 20 + length r)
get_ip_total (a ∷ b ∷ c ∷ d ∷ e ∷ f ∷ g ∷ h ∷ i ∷ j ∷ k ∷ l ∷ m ∷ n ∷ o ∷ p ∷ q ∷ s ∷ t ∷ u ∷ r) z =
    (_, r, refl, omega arith)
get_ip_total _ z = absurd (omega arith)

pub get_arp_total :
    (p : Bytes)
    → 28 ≤ length p
    → (h : ArpHdr) × (r : Bytes) × (get_arp p ≡ some (h, r)) × (length p ≡ 28 + length r)
get_arp_total
      (a ∷ b ∷ c ∷ d ∷ e ∷ f ∷ g ∷ h ∷ i ∷ j ∷ k ∷ l ∷ m ∷ n ∷ o ∷ p ∷ q ∷ s ∷ t ∷ u ∷ v ∷ w ∷ x ∷ y
        ∷ z ∷ z1 ∷ z2 ∷ z3 ∷ r)
      y' =
    (_, r, refl, omega arith)
get_arp_total _ z = absurd (omega arith)
