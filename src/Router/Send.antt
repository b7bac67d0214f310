-- ===== src/Router/Send.antt =====
-- Frames onto the wire: `sr_send_packet` of lab1/router/sr_vns_comm.c, and the ICMP senders of
-- sr_router.c. A result `none` is undefined behaviour: a null pointer or an access out of bounds.
use mini_internet_computer_n.Base.{
  ℕ, ◌-◌, Bool, false, ◌&&◌, Option, none, some, [], ◌∷◌, ltb, ◌==◌, take, drop, if◌then◌else◌,
  replicate,
}
use mini_internet_computer_n.Checksum.{swap16, cksum}
use mini_internet_computer_n.Router.Headers.{
  Bytes, EthernetHdr, IpHdr, IcmpHdr, get_ethernet, put_ethernet, put_ip, put_icmp,
}
use mini_internet_computer_n.Router.State.{Name, same_mac, SrIf, Sr}
use mini_internet_computer_n.Router.Interfaces.{sr_get_interface}

abbrev init_ttl : ℕ
init_ttl = 255

abbrev pub ip_protocol_icmp : ℕ
ip_protocol_icmp = 1

abbrev pub ethertype_ip : ℕ
ethertype_ip = 0x0800

abbrev pub ethertype_arp : ℕ
ethertype_arp = 0x0806

-- ICMP types and codes of sr_router.h.
pub record IcmpError : Type 0 where
  pub error_type : ℕ
  pub error_code : ℕ

abbrev icmp_error : ℕ → ℕ → IcmpError
icmp_error t c = record { error_type = t; error_code = c }

abbrev pub dst_net_unreachable : IcmpError
dst_net_unreachable = icmp_error 3 0

abbrev pub dst_host_unreachable : IcmpError
dst_host_unreachable = icmp_error 3 1

abbrev pub port_unreachable : IcmpError
port_unreachable = icmp_error 3 3

abbrev pub time_exceeded : IcmpError
time_exceeded = icmp_error 11 0

-- The interface exists and has the frame's source address.
unfoldable pub sr_ether_addrs_match_interface : Sr → EthernetHdr → Name → Bool
sr_ether_addrs_match_interface sr h name = elim (sr_get_interface sr name) [
  | none ↦ false
  | some i ↦ same_mac h.ether_shost i.addr
]

-- A frame that is too short, or whose source address is not that of the interface, is not sent. The
-- command carries 16 characters of the interface's name. The socket is taken to write it whole.
unfoldable pub sr_send_packet : Sr → Bytes → Name → Sr
sr_send_packet sr buf iface = elim (get_ethernet buf) [
  | none ↦ sr
  | some (h, r) ↦
      if sr_ether_addrs_match_interface sr h iface
      then record sr { wire = (buf, take 16 iface) ∷ sr.wire }
      else sr
]

-- A header whose checksum field is what `cksum` gives with the field zero.
abbrev pub with_ip_sum : IpHdr → IpHdr
with_ip_sum h = record h { ip_sum = cksum (put_ip (record h { ip_sum = 0 }) []) }

-- The Ethernet and IP headers that both ICMP senders fill out.
abbrev pub icmp_ethernet : SrIf → EthernetHdr → EthernetHdr
icmp_ethernet send_if eth = record {
  ether_dhost = eth.ether_shost;
  ether_shost = send_if.addr;
  ether_type = swap16 ethertype_ip;
}

abbrev pub icmp_ip_fields : ℕ → ℕ → IpHdr → IpHdr
icmp_ip_fields len src ip = record ip {
  ip_ttl = init_ttl;
  ip_p = ip_protocol_icmp;
  ip_dst = ip.ip_src;
  ip_len = swap16 (len - 14);
  ip_src = src;
}

abbrev pub icmp_ip : ℕ → ℕ → IpHdr → IpHdr
icmp_ip len src ip = with_ip_sum (icmp_ip_fields len src ip)

abbrev pub icmp_hdr : ℕ → ℕ → Bytes → IcmpHdr
icmp_hdr t c rest =
    let unsummed : IcmpHdr = record { icmp_type = t; icmp_code = c; icmp_sum = 0 } in
    record unsummed { icmp_sum = cksum (put_icmp unsummed rest) }

-- The frame of `send_icmp_echo_packet`. `body` is the received packet from its ICMP header on: its
-- first four bytes are zeroed, and then the checksum is set.
unfoldable pub echo_frame : SrIf → ℕ → ℕ → EthernetHdr → IpHdr → Bytes → Bytes
echo_frame send_if len dest_if_ip eth ip body =
    put_ethernet (icmp_ethernet send_if eth)
      (put_ip (icmp_ip len dest_if_ip ip) (put_icmp (icmp_hdr 0 0 (drop 4 body)) (drop 4 body)))

unfoldable pub send_icmp_echo_packet : Sr → Name → ℕ → ℕ → EthernetHdr → IpHdr → Bytes → Option Sr
send_icmp_echo_packet sr interface len dest_if_ip eth ip body =
    elim (sr_get_interface sr interface) [
      | none ↦ none
      | some send_if ↦
          some (sr_send_packet sr (echo_frame send_if len dest_if_ip eth ip body) interface)
    ]

-- The source address of an error.
abbrev pub error_src : SrIf → ℕ → IcmpError → ℕ
error_src send_if dest_if_ip e =
    if e.error_type == 3 && e.error_code == 3 then dest_if_ip else send_if.ip

-- The frame of `send_icmp_error_packet`: the three headers in a zeroed buffer of `len` bytes. The
-- checksum is taken over the four bytes of the ICMP header.
unfoldable pub error_frame : SrIf → ℕ → ℕ → EthernetHdr → IpHdr → IcmpError → Bytes
error_frame send_if len dest_if_ip eth ip e = put_ethernet (icmp_ethernet send_if eth) (
    put_ip (icmp_ip len (error_src send_if dest_if_ip e) ip)
      (put_icmp (icmp_hdr e.error_type e.error_code []) (replicate (len - 38) 0)))

-- The headers take 38 bytes: a buffer of fewer is overrun.
unfoldable pub send_icmp_error_packet :
    Sr → Name → ℕ → ℕ → EthernetHdr → IpHdr → IcmpError → Option Sr
send_icmp_error_packet sr interface len dest_if_ip eth ip e =
    if ltb len 38 then none else elim (sr_get_interface sr interface) [
      | none ↦ none
      | some send_if ↦
          some (sr_send_packet sr (error_frame send_if len dest_if_ip eth ip e) interface)
    ]
