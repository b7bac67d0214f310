-- ===== src/Router/Tests/Arp.antt =====
-- ARP packets, requests that wait, and rounds of the timeout thread.
use mini_internet_computer_n.Base.{
  ℕ, ◌≡◌, refl, inl, inr, true, none, some, [], ◌∷◌, arith, length, take,
}
use mini_internet_computer_n.Router.Headers.{Bytes, put_ethernet, put_arp}
use mini_internet_computer_n.Router.State.{same_name, ArpCache}
use mini_internet_computer_n.Router.Interfaces.{find_interface, sr_get_interface}
use mini_internet_computer_n.Router.ArpCache.{find_request, sr_arpcache_lookup}
use mini_internet_computer_n.Router.ArpCache.Queue.{ReqOk}
use mini_internet_computer_n.Router.Arp.{sr_arpcache_timeout}
use mini_internet_computer_n.Router.Arp.Safe.{Ends}
use mini_internet_computer_n.Router.Arp.Sweep.{WellFormed, timeout-Ends}
use mini_internet_computer_n.Router.Handle.{sr_handlepacket}
use mini_internet_computer_n.Router.Handle.Resolve.{IsArpPacket, arp_parts, handle_arp_asked}
use mini_internet_computer_n.Router.Handle.Told.{all_redirected, handle_arp_told}
use mini_internet_computer_n.Router.Samples.{
  eth1, eth1_name, two_interfaces, two_routes, router, arp_eth, arp_packet, waiting_packet,
  waiting_request, waiting_router,
}

abbrev arp_frame : ℕ → Bytes
arp_frame op = put_ethernet arp_eth (put_arp (arp_packet op) [])

request-IsArpPacket : IsArpPacket (arp_frame 0x0100) arp_eth (arp_packet 0x0100)
request-IsArpPacket = record {
  rest = _;
  padding = [];
  size = omega arith;
  parse = refl;
  parse_arp = refl;
  type = refl;
  fits = omega arith;
}

handle_arp_asked_example :
    (f : Bytes) × (sr_handlepacket 100 router (arp_frame 0x0100) eth1_name
      ≡ some (record router { wire = (f, take 16 eth1_name) ∷ [] }))
    × (length f ≡ 42)
    × (arp_parts f
        ≡ some (
          record {
            ether_dhost = arp_eth.ether_shost;
            ether_shost = eth1.addr;
            ether_type = 0x0608;
          },
          record (arp_packet 0x0100) {
            ar_op = 0x0200;
            ar_sha = eth1.addr;
            ar_sip = eth1.ip;
            ar_tha = arp_eth.ether_shost;
            ar_tip = (arp_packet 0x0100).ar_sip;
          },
        ))
unfolding sr_get_interface same_name
handle_arp_asked_example =
    handle_arp_asked 100 router eth1_name request-IsArpPacket {i = eth1} refl refl refl

reply-IsArpPacket : IsArpPacket (arp_frame 0x0200) arp_eth (arp_packet 0x0200)
reply-IsArpPacket = record {
  rest = _;
  padding = [];
  size = omega arith;
  parse = refl;
  parse_arp = refl;
  type = refl;
  fits = omega arith;
}

waiting-ReqOk : ReqOk two_interfaces waiting_request
unfolding find_interface same_name
waiting-ReqOk = record {
  waiting = tt;
  packets = (omega arith, (eth1, refl), tt);
  tries = omega arith;
}

handle_arp_told_example :
    (c : ArpCache) × (sr_handlepacket 100 waiting_router (arp_frame 0x0200) eth1_name
      ≡ some (record waiting_router {
        cache = c;
        wire = all_redirected arp_eth.ether_shost eth1 (waiting_packet ∷ []) [];
      }))
    × (sr_arpcache_lookup c (arp_packet 0x0200).ar_sip
        ≡ some (record {
          mac = arp_eth.ether_shost;
          ip = (arp_packet 0x0200).ar_sip;
          added = 100;
          valid = true;
        }))
    × (find_request (arp_packet 0x0200).ar_sip c.requests ≡ none)
unfolding sr_get_interface same_name find_request
handle_arp_told_example =
    handle_arp_told 100 waiting_router eth1_name reply-IsArpPacket two_interfaces
      (arp_packet 0x0200).ar_sip {i = eth1} {req = waiting_request} refl refl refl
      (waiting-ReqOk, tt, tt) (inr (inl refl)) (refl, (refl, tt))

timeout-Ends_example :
    Ends (WellFormed two_interfaces two_routes) (sr_arpcache_timeout 101 waiting_router)
timeout-Ends_example =
    timeout-Ends two_interfaces two_routes 101 waiting_router
      (record { ifs = refl; routes = refl; queue = (waiting-ReqOk, tt, tt) })
      (inr (omega arith), tt)
