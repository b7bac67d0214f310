-- ===== src/Router/Samples.antt =====
-- A router with two interfaces and two routes, and packets that it receives: constants for the
-- tests.
use mini_internet_computer_n.Base.{ℕ, true, false, List, [], ◌∷◌}
use mini_internet_computer_n.Checksum.{swap16}
use mini_internet_computer_n.Router.Headers.{
  Bytes, Mac, mac, load32, EthernetHdr, IpHdr, ArpHdr, put_ethernet, put_ip,
}
use mini_internet_computer_n.Router.State.{
  Name, SrIf, SrRt, SrPacket, ArpEntry, ArpReq, ArpCache, Sr,
}

-- "eth0" and "eth1".
abbrev eth0_name : Name
eth0_name = 101 ∷ 116 ∷ 104 ∷ 48 ∷ []

abbrev pub eth1_name : Name
eth1_name = 101 ∷ 116 ∷ 104 ∷ 49 ∷ []

abbrev pub eth0 : SrIf
eth0 = record { name = eth0_name; addr = mac 2 0 0 0 0 1; ip = load32 10 0 0 1 }

abbrev pub eth1 : SrIf
eth1 = record { name = eth1_name; addr = mac 2 0 0 0 0 2; ip = load32 192 168 1 1 }

-- 10.1.0.0/16 by eth0, and a default route by eth1.
abbrev pub route_10_1 : SrRt
route_10_1 = record {
  dest = load32 10 1 0 0;
  gw = load32 10 0 0 9;
  mask = load32 255 255 0 0;
  interface = eth0_name;
}

abbrev pub route_default : SrRt
route_default = record { dest = 0; gw = load32 192 168 1 9; mask = 0; interface = eth1_name }

abbrev free_entry : ArpEntry
free_entry = record { mac = mac 0 0 0 0 0 0; ip = 0; added = 0; valid = false }

abbrev gateway_mac : Mac
gateway_mac = mac 4 0 0 0 0 9

-- The hardware address of the gateway of `route_10_1`, learned at time 100.
abbrev pub gateway_entry : ArpEntry
gateway_entry = record { mac = gateway_mac; ip = load32 10 0 0 9; added = 100; valid = true }

abbrev pub two_interfaces : List SrIf
two_interfaces = eth0 ∷ eth1 ∷ []

abbrev pub two_routes : List SrRt
two_routes = route_default ∷ route_10_1 ∷ []

abbrev small_cache : ArpCache
small_cache = record { entries = gateway_entry ∷ free_entry ∷ []; requests = [] }

abbrev pub router : Sr
router = record {
  if_list = two_interfaces;
  routing_table = two_routes;
  cache = small_cache;
  wire = [];
}

-- From a host behind eth1.
abbrev pub host_eth : EthernetHdr
host_eth = record {
  ether_dhost = mac 2 0 0 0 0 2;
  ether_shost = mac 6 0 0 0 0 50;
  ether_type = 0x0008;
}

abbrev pub ip_packet : ℕ → ℕ → ℕ → ℕ → IpHdr
ip_packet ttl p sum dst = record {
  ip_hl = 5;
  ip_v = 4;
  ip_tos = 0;
  ip_len = swap16 28;
  ip_id = swap16 1;
  ip_off = swap16 0x4000;
  ip_ttl = ttl;
  ip_p = p;
  ip_sum = sum;
  ip_src = load32 192 168 1 50;
  ip_dst = dst;
}

abbrev pub eight_bytes : Bytes
eight_bytes = 1 ∷ 2 ∷ 3 ∷ 4 ∷ 5 ∷ 6 ∷ 7 ∷ 8 ∷ []

abbrev pub as_frame : IpHdr → Bytes → Bytes
as_frame ip body = put_ethernet host_eth (put_ip ip body)

-- ARP packets that come in by eth1, from its gateway.
abbrev pub arp_eth : EthernetHdr
arp_eth = record {
  ether_dhost = mac 0xff 0xff 0xff 0xff 0xff 0xff;
  ether_shost = mac 4 0 0 0 1 9;
  ether_type = 0x0608;
}

abbrev pub arp_packet : ℕ → ArpHdr
arp_packet op = record {
  ar_hrd = 0x0100;
  ar_pro = 0x0008;
  ar_hln = 6;
  ar_pln = 4;
  ar_op = op;
  ar_sha = mac 4 0 0 0 1 9;
  ar_sip = load32 192 168 1 9;
  ar_tha = mac 0 0 0 0 0 0;
  ar_tip = load32 192 168 1 1;
}

-- A request of the queue for the gateway of the default route, with one frame that waits.
abbrev pub waiting_packet : SrPacket
waiting_packet = record { buf = put_ethernet host_eth eight_bytes; iface = eth1_name }

abbrev pub waiting_request : ArpReq
waiting_request = record {
  ip = load32 192 168 1 9;
  sent = 100;
  times_sent = 2;
  packets = waiting_packet ∷ [];
}

abbrev pub waiting_router : Sr
waiting_router = record router { cache = record small_cache { requests = waiting_request ∷ [] } }
