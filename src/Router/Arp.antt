-- ===== src/Router/Arp.antt =====
-- Requests that wait for an ARP reply: `handle_arpreq`, `sr_arpcache_sweepreqs` and a round of
-- `sr_arpcache_timeout` of lab1/router/sr_arpcache.c. `none` is undefined behaviour.
pub mod Safe
pub mod Handled
pub mod Sweep
use mini_internet_computer_n.Base.{
  ℕ, suc, ◌+◌, ◌≤◌, Bool, true, false, Option, none, some, List, [], ◌∷◌, ltb, leb, ◌==◌,
  if◌then◌else◌,
}
use mini_internet_computer_n.Checksum.{swap16}
use mini_internet_computer_n.Router.Headers.{
  Bytes, Mac, mac, EthernetHdr, IpHdr, ArpHdr, get_ethernet, put_ethernet, put_arp,
}
use mini_internet_computer_n.Router.State.{
  Name, same_mac, SrIf, SrPacket, ArpEntry, ArpReq, ArpCache, Sr,
}
use mini_internet_computer_n.Router.Interfaces.{sr_get_interface}
use mini_internet_computer_n.Router.ArpCache.{change_request, sr_arpreq_destroy, expire}
use mini_internet_computer_n.Router.Send.{
  ethertype_ip, ethertype_arp, dst_host_unreachable, sr_send_packet, send_icmp_error_packet,
}

abbrev pub max_request_tries : ℕ
max_request_tries = 5

abbrev pub arp_op_request : ℕ
arp_op_request = 1

abbrev pub arp_op_reply : ℕ
arp_op_reply = 2

abbrev broadcast_addr : Mac
broadcast_addr = mac 0xff 0xff 0xff 0xff 0xff 0xff

-- The headers of the frame that asks who has `ip`.
abbrev pub request_ethernet : SrIf → EthernetHdr
request_ethernet i = record {
  ether_dhost = broadcast_addr;
  ether_shost = i.addr;
  ether_type = swap16 ethertype_arp;
}

abbrev pub request_arp : SrIf → ℕ → ArpHdr
request_arp i ip = record {
  ar_hrd = swap16 1;
  ar_pro = swap16 ethertype_ip;
  ar_hln = 6;
  ar_pln = 4;
  ar_op = swap16 arp_op_request;
  ar_sha = i.addr;
  ar_sip = i.ip;
  ar_tha = broadcast_addr;
  ar_tip = ip;
}

unfoldable pub request_frame : SrIf → ℕ → Bytes
request_frame i ip = put_ethernet (request_ethernet i) (put_arp (request_arp i ip) [])

-- `req->packets->iface`, then the interface of that name.
unfoldable pub sending_interface : Sr → List SrPacket → Option SrIf
sending_interface sr [] = none
sending_interface sr (p ∷ ps) = sr_get_interface sr p.iface

abbrev pub count_try : ℕ → ArpReq → ArpReq
count_try now r = record r { sent = now; times_sent = r.times_sent + 1 }

abbrev pub set_requests : Sr → List ArpReq → Sr
set_requests sr rs = record sr { cache = record sr.cache { requests = rs } }

-- The branch that sends a request. The name goes to `sr_send_packet` as it is stored.
unfoldable pub send_arp_request : ℕ → Sr → ArpReq → Option Sr
send_arp_request now sr req = elim (sending_interface sr req.packets) [
  | none ↦ none
  | some i ↦ some (
      sr_send_packet (set_requests sr (change_request (count_try now) req.ip sr.cache.requests))
        (request_frame i req.ip) i.name)
]

-- The interface that a queued frame came in by: the first with the frame's destination address.
unfoldable pub interface_of_mac : Mac → List SrIf → Option SrIf
interface_of_mac m [] = none
interface_of_mac m (i ∷ is) = if same_mac m i.addr then some i else interface_of_mac m is

-- The IP header that `send_icmp_error_packet` is given for a queued packet lies not in the packet's
-- buffer but 14 `struct sr_packet` behind the list node: reading it is undefined behaviour.
unfoldable pub host_unreachable : Sr → SrPacket → Option Sr
host_unreachable sr p = elim (get_ethernet p.buf) [
  | none ↦ none
  | some (eth, r) ↦ elim (interface_of_mac eth.ether_dhost sr.if_list) [
    | none ↦ some sr
    | some i ↦ none
  ]
]

unfoldable pub all_unreachable : Sr → List SrPacket → Option Sr
all_unreachable sr [] = some sr
all_unreachable sr (p ∷ ps) = elim (host_unreachable sr p) [
  | none ↦ none
  | some sr' ↦ all_unreachable sr' ps
]

-- The branch that gives the request up.
unfoldable pub give_up : Sr → ArpReq → Option Sr
give_up sr req = elim (all_unreachable sr req.packets) [
  | none ↦ none
  | some sr' ↦ some (record sr' { cache = sr_arpreq_destroy sr'.cache req.ip })
]

-- `now` is what `time` returns, in seconds.
unfoldable pub handle_arpreq : ℕ → Sr → ArpReq → Option Sr
handle_arpreq now sr req =
    if leb (req.sent + 1) now
    then if leb max_request_tries req.times_sent
      then give_up sr req
      else send_arp_request now sr req
    else some sr

-- `next` is read before the request can be freed, so the walk is over the queue as it stood.
unfoldable pub sweep_from : ℕ → Sr → List ArpReq → Option Sr
sweep_from now sr [] = some sr
sweep_from now sr (r ∷ rs) = elim (handle_arpreq now sr r) [
  | none ↦ none
  | some sr' ↦ sweep_from now sr' rs
]

unfoldable pub sr_arpcache_sweepreqs : ℕ → Sr → Option Sr
sr_arpcache_sweepreqs now sr = sweep_from now sr sr.cache.requests

-- One round of the timeout thread.
unfoldable pub sr_arpcache_timeout : ℕ → Sr → Option Sr
sr_arpcache_timeout now sr =
    sr_arpcache_sweepreqs now
      (record sr { cache = record sr.cache { entries = expire now sr.cache.entries } })
