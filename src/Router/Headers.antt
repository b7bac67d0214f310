-- ===== src/Router/Headers.antt =====
-- The packed header structs of lab1/router/sr_protocol.h as records, and the casts between a
-- packet's bytes and a struct. A multi-byte field holds what a little-endian host loads, so a
-- field in network order stays as it came until `ntohs` (`swap16`).
pub mod RoundTrip
use mini_internet_computer_n.Base.{
  ℕ, ◌+◌, ◌*◌, ◌/◌, ◌%◌, ◌<◌, ◌≡◌, Option, none, some, List, [], ◌∷◌, ◌++◌, length,
}
use mini_internet_computer_n.Checksum.{AreBytes}

abbrev pub Bytes : Type 0
Bytes = List ℕ

-- `ETHER_ADDR_LEN` bytes.
pub record Mac : Type 0 where
  pub m0 : ℕ
  pub m1 : ℕ
  pub m2 : ℕ
  pub m3 : ℕ
  pub m4 : ℕ
  pub m5 : ℕ

pub record EthernetHdr : Type 0 where
  pub ether_dhost : Mac
  pub ether_shost : Mac
  pub ether_type : ℕ

pub record IpHdr : Type 0 where
  pub ip_hl : ℕ
  pub ip_v : ℕ
  pub ip_tos : ℕ
  pub ip_len : ℕ
  pub ip_id : ℕ
  pub ip_off : ℕ
  pub ip_ttl : ℕ
  pub ip_p : ℕ
  pub ip_sum : ℕ
  pub ip_src : ℕ
  pub ip_dst : ℕ

pub record IcmpHdr : Type 0 where
  pub icmp_type : ℕ
  pub icmp_code : ℕ
  pub icmp_sum : ℕ

pub record ArpHdr : Type 0 where
  pub ar_hrd : ℕ
  pub ar_pro : ℕ
  pub ar_hln : ℕ
  pub ar_pln : ℕ
  pub ar_op : ℕ
  pub ar_sha : Mac
  pub ar_sip : ℕ
  pub ar_tha : Mac
  pub ar_tip : ℕ

-- A little-endian load and store of two and of four bytes.
abbrev pub load16 : ℕ → ℕ → ℕ
load16 a b = a + 256 * b

abbrev pub load32 : ℕ → ℕ → ℕ → ℕ → ℕ
load32 a b c d = a + 256 * (b + 256 * (c + 256 * d))

abbrev store16 : ℕ → Bytes → Bytes
store16 v r = (v % 256) ∷ (v / 256 % 256) ∷ r

abbrev store32 : ℕ → Bytes → Bytes
store32 v r = (v % 256) ∷ (v / 256 % 256) ∷ (v / 65536 % 256) ∷ (v / 16777216 % 256) ∷ r

abbrev store_mac : Mac → Bytes → Bytes
store_mac m r = m.m0 ∷ m.m1 ∷ m.m2 ∷ m.m3 ∷ m.m4 ∷ m.m5 ∷ r

abbrev pub mac : ℕ → ℕ → ℕ → ℕ → ℕ → ℕ → Mac
mac a b c d e f = record { m0 = a; m1 = b; m2 = c; m3 = d; m4 = e; m5 = f }

-- The bytes of a struct, followed by the rest of the buffer.
abbrev pub put_ethernet : EthernetHdr → Bytes → Bytes
put_ethernet h r = store_mac h.ether_dhost (store_mac h.ether_shost (store16 h.ether_type r))

abbrev pub put_ip : IpHdr → Bytes → Bytes
put_ip h r =
    (h.ip_hl + 16 * h.ip_v)
    ∷ h.ip_tos
    ∷ store16 h.ip_len (
        store16 h.ip_id (
          store16 h.ip_off
            (h.ip_ttl ∷ h.ip_p ∷ store16 h.ip_sum (store32 h.ip_src (store32 h.ip_dst r)))))

abbrev pub put_icmp : IcmpHdr → Bytes → Bytes
put_icmp h r = h.icmp_type ∷ h.icmp_code ∷ store16 h.icmp_sum r

abbrev pub put_arp : ArpHdr → Bytes → Bytes
put_arp h r = store16 h.ar_hrd (
    store16 h.ar_pro (
      h.ar_hln
      ∷ h.ar_pln
      ∷ store16 h.ar_op
          (store_mac h.ar_sha (store32 h.ar_sip (store_mac h.ar_tha (store32 h.ar_tip r))))))

-- A cast of the buffer's front: the struct and the bytes behind it. `none` is an access past the
-- end of the buffer.
abbrev pub get_ethernet : Bytes → Option (EthernetHdr × Bytes)
get_ethernet (a ∷ b ∷ c ∷ d ∷ e ∷ f ∷ g ∷ h ∷ i ∷ j ∷ k ∷ l ∷ m ∷ n ∷ r) = some (
  record { ether_dhost = mac a b c d e f; ether_shost = mac g h i j k l; ether_type = load16 m n },
  r,
)
get_ethernet _ = none

abbrev pub get_ip : Bytes → Option (IpHdr × Bytes)
get_ip (a ∷ b ∷ c ∷ d ∷ e ∷ f ∷ g ∷ h ∷ i ∷ j ∷ k ∷ l ∷ m ∷ n ∷ o ∷ p ∷ q ∷ s ∷ t ∷ u ∷ r) = some (
  record {
    ip_hl = a % 16;
    ip_v = a / 16;
    ip_tos = b;
    ip_len = load16 c d;
    ip_id = load16 e f;
    ip_off = load16 g h;
    ip_ttl = i;
    ip_p = j;
    ip_sum = load16 k l;
    ip_src = load32 m n o p;
    ip_dst = load32 q s t u;
  },
  r,
)
get_ip _ = none

abbrev pub get_icmp : Bytes → Option (IcmpHdr × Bytes)
get_icmp (a ∷ b ∷ c ∷ d ∷ r) =
    some (record { icmp_type = a; icmp_code = b; icmp_sum = load16 c d }, r)
get_icmp _ = none

abbrev pub get_arp : Bytes → Option (ArpHdr × Bytes)
get_arp
      (a ∷ b ∷ c ∷ d ∷ e ∷ f ∷ g ∷ h ∷ i ∷ j ∷ k ∷ l ∷ m ∷ n ∷ o ∷ p ∷ q ∷ s ∷ t ∷ u ∷ v ∷ w ∷ x ∷ y
        ∷ z ∷ z1 ∷ z2 ∷ z3 ∷ r) =
    some (
      record {
        ar_hrd = load16 a b;
        ar_pro = load16 c d;
        ar_hln = e;
        ar_pln = f;
        ar_op = load16 g h;
        ar_sha = mac i j k l m n;
        ar_sip = load32 o p q s;
        ar_tha = mac t u v w x y;
        ar_tip = load32 z z1 z2 z3;
      },
      r,
    )
get_arp _ = none
