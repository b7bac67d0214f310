-- ===== src/Router/Handle.antt =====
-- The packet handlers of lab1/router/sr_router.c. A packet is its buffer, and `len` the length of
-- that. A result `none` is undefined behaviour.
pub mod Replies
pub mod Forward
pub mod Local
pub mod Resolve
pub mod Told
pub mod Queued
pub mod Safety
pub mod Total
use mini_internet_computer_n.Base.{
  ℕ, ◌+◌, ◌-◌, ◌%◌, Bool, true, false, ◌&&◌, Option, none, some, List, [], ◌∷◌, ltb, leb, ◌==◌,
  drop, if◌then◌else◌, length, replicate,
}
use mini_internet_computer_n.Checksum.{swap16, cksum}
use mini_internet_computer_n.Router.Headers.{
  Bytes, Mac, EthernetHdr, IpHdr, IcmpHdr, ArpHdr, get_ethernet, get_ip, get_icmp, get_arp,
  put_ethernet, put_ip, put_icmp, put_arp,
}
use mini_internet_computer_n.Router.State.{
  Name, SrIf, SrRt, SrPacket, ArpEntry, ArpReq, ArpCache, Sr,
}
use mini_internet_computer_n.Router.Interfaces.{sr_get_interface}
use mini_internet_computer_n.Router.Table.{lpm}
use mini_internet_computer_n.Router.ArpCache.{
  sr_arpcache_lookup, sr_arpcache_queuereq, sr_arpcache_insert, find_request,
}
use mini_internet_computer_n.Router.Send.{
  ethertype_ip, ethertype_arp, ip_protocol_icmp, dst_net_unreachable, port_unreachable,
  time_exceeded, with_ip_sum, sr_send_packet, send_icmp_echo_packet, send_icmp_error_packet,
}
use mini_internet_computer_n.Router.Arp.{arp_op_request, arp_op_reply, handle_arpreq}

-- An answered packet of the queue: the sender's address is its destination.
unfoldable pub answered : Mac → SrIf → Sr → SrPacket → Option Sr
answered sha recv_if sr p = elim (get_ethernet p.buf) [
  | none ↦ none
  | some (h, r) ↦ some (
      sr_send_packet sr
        (put_ethernet (record h { ether_dhost = sha; ether_shost = recv_if.addr }) r) recv_if.name)
]

unfoldable pub all_answered : Mac → Option SrIf → Sr → List SrPacket → Option Sr
all_answered sha recv_if sr [] = some sr
all_answered sha none sr (p ∷ ps) = none
all_answered sha (some i) sr (p ∷ ps) = elim (answered sha i sr p) [
  | none ↦ none
  | some sr' ↦ all_answered sha (some i) sr' ps
]

-- The frames of an unlinked request are sent. (It is then freed: the queue has it no more.)
unfoldable pub answer_waiting : Mac → Option SrIf → Sr → Option ArpReq → Option Sr
answer_waiting sha recv_if sr none = some sr
answer_waiting sha recv_if sr (some req) = all_answered sha recv_if sr req.packets

-- The reply to a request for the interface's own address, in a zeroed buffer of `len` bytes.
unfoldable pub reply_frame : SrIf → ℕ → EthernetHdr → ArpHdr → Bytes
reply_frame recv_if len eth arp =
    let send_eth : EthernetHdr = record {
      ether_dhost = eth.ether_shost;
      ether_shost = recv_if.addr;
      ether_type = swap16 ethertype_arp;
    } in
    let send_arp : ArpHdr = record arp {
      ar_tip = arp.ar_sip;
      ar_sip = recv_if.ip;
      ar_op = swap16 arp_op_reply;
      ar_tha = eth.ether_shost;
      ar_sha = recv_if.addr;
    } in
    put_ethernet send_eth (put_arp send_arp (replicate (len - 42) 0))

unfoldable pub handle_arp_reply : ℕ → Sr → ArpHdr → Option SrIf → Option Sr
handle_arp_reply now sr arp recv_if =
    let (cache', req) = sr_arpcache_insert sr.cache arp.ar_sha arp.ar_sip now in
    answer_waiting arp.ar_sha recv_if (record sr { cache = cache' }) req

unfoldable pub handle_arp_request : Sr → EthernetHdr → ArpHdr → ℕ → Option SrIf → Option Sr
handle_arp_request sr eth arp len none = none
handle_arp_request sr eth arp len (some recv_if) =
    if arp.ar_tip == recv_if.ip
    then some (sr_send_packet sr (reply_frame recv_if len eth arp) recv_if.name)
    else some sr

unfoldable pub sr_handle_arp_packet_type : ℕ → Sr → Bytes → Name → Option Sr
sr_handle_arp_packet_type now sr packet interface = elim (get_ethernet packet) [
  | none ↦ none
  | some (eth, r) ↦ elim (get_arp r) [
    | none ↦ none
    | some (arp, r') ↦
        let recv_if = sr_get_interface sr interface in
        if swap16 arp.ar_op == arp_op_reply
        then handle_arp_reply now sr arp recv_if
        else if swap16 arp.ar_op == arp_op_request
        then handle_arp_request sr eth arp (length packet) recv_if
        else some sr
  ]
]

-- The first interface with the packet's destination address.
unfoldable pub find_ip : ℕ → List SrIf → Option SrIf
find_ip ip [] = none
find_ip ip (i ∷ is) = if i.ip == ip then some i else find_ip ip is

unfoldable pub ip_packet_forwarding : Sr → IpHdr → Option SrIf
ip_packet_forwarding sr ip = find_ip ip.ip_dst sr.if_list

-- `memset` of the checksum, `cksum` over the ICMP part, and the comparison.
unfoldable pub icmp_valid : Bytes → Bool
icmp_valid body = elim (get_icmp body) [
  | none ↦ false
  | some (h, r) ↦ h.icmp_sum == cksum (put_icmp (record h { icmp_sum = 0 }) r)
]

-- The check of the IP header: its checksum field against `cksum` with the field zero.
abbrev pub ip_valid : IpHdr → Bool
ip_valid ip = ip.ip_sum == cksum (put_ip (record ip { ip_sum = 0 }) [])

-- `body` is what stands behind the IP header.
unfoldable pub sr_ip_packet_reply : Sr → EthernetHdr → IpHdr → Bytes → ℕ → Name → ℕ → Option Sr
sr_ip_packet_reply sr eth ip body len interface dest_if_ip =
    if ip.ip_p == ip_protocol_icmp
    then if ltb len 38
      then some sr
      else if icmp_valid body
      then send_icmp_echo_packet sr interface len dest_if_ip eth ip body
      else some sr
    else send_icmp_error_packet sr interface len dest_if_ip eth ip port_unreachable

-- `ip_ttl -= 1` on a `uint8_t`.
abbrev pub less_ttl : IpHdr → IpHdr
less_ttl ip = record ip { ip_ttl = (ip.ip_ttl + 255) % 256 }

-- The frame for the next hop: both addresses and the IP header are new.
unfoldable pub hop_frame : Mac → SrIf → EthernetHdr → IpHdr → Bytes → Bytes
hop_frame dhost send_if eth ip body =
    put_ethernet (record eth { ether_dhost = dhost; ether_shost = send_if.addr }) (put_ip ip body)

-- The frame is queued behind an ARP request for the gateway.
unfoldable pub queue_for : ℕ → Sr → Bytes → SrRt → Option Sr
queue_for now sr packet rt =
    let sr' = record sr { cache = sr_arpcache_queuereq sr.cache rt.gw packet rt.interface } in
    elim (find_request rt.gw sr'.cache.requests) [
      | none ↦ none
      | some req ↦ handle_arpreq now sr' req
    ]

-- `ip` has the new ttl and checksum.
unfoldable pub send_next_hop : ℕ → Sr → EthernetHdr → IpHdr → Bytes → SrRt → Option Sr
send_next_hop now sr eth ip body rt = elim (sr_arpcache_lookup sr.cache rt.gw) [
  | none ↦ queue_for now sr (put_ethernet eth (put_ip ip body)) rt
  | some e ↦ elim (sr_get_interface sr rt.interface) [
    | none ↦ none
    | some i ↦ some (sr_send_packet sr (hop_frame e.mac i eth ip body) rt.interface)
  ]
]

unfoldable pub sr_ip_packet_next_hop : ℕ → Sr → EthernetHdr → IpHdr → Bytes → ℕ → Name → Option Sr
sr_ip_packet_next_hop now sr eth ip body len interface = elim (lpm sr ip.ip_dst) [
  | none ↦ send_icmp_error_packet sr interface len 0 eth ip dst_net_unreachable
  | some rt ↦
      if ltb 0 (less_ttl ip).ip_ttl
      then send_next_hop now sr eth (with_ip_sum (less_ttl ip)) body rt
      else send_icmp_error_packet sr interface len 0 eth (less_ttl ip) time_exceeded
]

unfoldable pub sr_handle_ip_packet_type : ℕ → Sr → Bytes → Name → Option Sr
sr_handle_ip_packet_type now sr packet interface = elim (get_ethernet packet) [
  | none ↦ none
  | some (eth, r) ↦ elim (get_ip r) [
    | none ↦ none
    | some (ip, body) ↦
        if ip_valid ip
        then elim (ip_packet_forwarding sr ip) [
          | none ↦ sr_ip_packet_next_hop now sr eth ip body (length packet) interface
          | some i ↦ sr_ip_packet_reply sr eth ip body (length packet) interface i.ip
        ]
        else some sr
  ]
]

-- The type is read before the length is looked at.
unfoldable pub sr_handlepacket : ℕ → Sr → Bytes → Name → Option Sr
sr_handlepacket now sr packet interface = elim (get_ethernet packet) [
  | none ↦ none
  | some (eth, r) ↦
      if swap16 eth.ether_type == ethertype_arp
      then if ltb (length packet) 42
        then some sr
        else sr_handle_arp_packet_type now sr packet interface
      else if swap16 eth.ether_type == ethertype_ip
      then if ltb (length packet) 34
        then some sr
        else sr_handle_ip_packet_type now sr packet interface
      else some sr
]
