-- ===== src/Router/Tests/Forward.antt =====
-- Packets in transit.
use mini_internet_computer_n.Base.{ℕ, true, take, [], ◌∷◌, ◌≡◌, refl, some, arith}
use mini_internet_computer_n.Checksum.{cksum}
use mini_internet_computer_n.Router.Headers.{Bytes, IpHdr, load32}
use mini_internet_computer_n.Router.State.{same_name}
use mini_internet_computer_n.Router.Interfaces.{sr_get_interface}
use mini_internet_computer_n.Router.Table.{lpm, lpm_step}
use mini_internet_computer_n.Router.ArpCache.{find_request, sr_arpcache_lookup}
use mini_internet_computer_n.Router.Handle.Replies.{IsReply, frame_parts}
use mini_internet_computer_n.Router.Handle.Resolve.{arp_parts}
use mini_internet_computer_n.Router.Handle.Queued.{asking_headers, asked_for, handle_queued}
use mini_internet_computer_n.Router.Send.{with_ip_sum}
use mini_internet_computer_n.Router.Handle.{ip_valid, find_ip, sr_handlepacket}
use mini_internet_computer_n.Router.Handle.Forward.{
  IsIpPacket, Forwarded, handle_forward, handle_forward_ttl_zero, handle_ttl_one,
}
use mini_internet_computer_n.Router.Samples.{
  eth0, eth1, eth1_name, route_10_1, route_default, gateway_entry, router, host_eth, ip_packet,
  eight_bytes, as_frame,
}

-- For 10.1.2.3, with the ttl and the checksum given.
abbrev transit : ℕ → ℕ → IpHdr
transit ttl sum = ip_packet ttl 17 sum (load32 10 1 2 3)

abbrev transit_frame : ℕ → ℕ → Bytes
transit_frame ttl sum = as_frame (transit ttl sum) eight_bytes

transit-IsIpPacket : IsIpPacket (transit_frame 64 62060) host_eth (transit 64 62060) eight_bytes
unfolding cksum
transit-IsIpPacket = record {
  rest = _;
  size = omega arith;
  parse = refl;
  parse_ip = refl;
  type = refl;
  fits = omega arith;
  small = omega arith;
  check = refl;
}

handle_forward_example :
    Forwarded 100 router eth1_name transit-IsIpPacket route_10_1 gateway_entry eth0 63
unfolding find_ip lpm lpm_step sr_arpcache_lookup sr_get_interface same_name
handle_forward_example =
    handle_forward 100 router eth1_name transit-IsIpPacket refl refl refl refl (omega arith)

transit0-IsIpPacket : IsIpPacket (transit_frame 0 62124) host_eth (transit 0 62124) eight_bytes
unfolding cksum
transit0-IsIpPacket = record {
  rest = _;
  size = omega arith;
  parse = refl;
  parse_ip = refl;
  type = refl;
  fits = omega arith;
  small = omega arith;
  check = refl;
}

handle_forward_ttl_zero_example :
    Forwarded 100 router eth1_name transit0-IsIpPacket route_10_1 gateway_entry eth0 255
unfolding find_ip lpm lpm_step sr_arpcache_lookup sr_get_interface same_name
handle_forward_ttl_zero_example =
    handle_forward_ttl_zero 100 router eth1_name transit0-IsIpPacket refl refl refl refl refl

transit1-IsIpPacket : IsIpPacket (transit_frame 1 62123) host_eth (transit 1 62123) eight_bytes
unfolding cksum
transit1-IsIpPacket = record {
  rest = _;
  size = omega arith;
  parse = refl;
  parse_ip = refl;
  type = refl;
  fits = omega arith;
  small = omega arith;
  check = refl;
}

handle_ttl_one_example :
    (f : Bytes) × (sr_handlepacket 100 router (transit_frame 1 62123) eth1_name
      ≡ some (record router { wire = (f, take 16 eth1_name) ∷ [] }))
    × IsReply 42 eth1 host_eth (load32 192 168 1 50) eth1.ip 11 0 f
unfolding find_ip lpm lpm_step sr_get_interface same_name
handle_ttl_one_example =
    handle_ttl_one 100 router eth1_name transit1-IsIpPacket {rt = route_10_1} refl refl
      (omega arith) refl refl (omega arith)

-- For 172.16.0.1, whose gateway is not cached.
abbrev far : IpHdr
far = ip_packet 64 17 58572 (load32 172 16 0 1)

far-IsIpPacket : IsIpPacket (as_frame far eight_bytes) host_eth far eight_bytes
unfolding cksum
far-IsIpPacket = record {
  rest = _;
  size = omega arith;
  parse = refl;
  parse_ip = refl;
  type = refl;
  fits = omega arith;
  small = omega arith;
  check = refl;
}

handle_queued_example :
    (f g : Bytes) × (sr_handlepacket 100 router (as_frame far eight_bytes) eth1_name
      ≡ some (asked_for router eth1 route_default 100 f g))
    × (arp_parts f ≡ some (asking_headers eth1 route_default.gw))
    × (frame_parts g ≡ some (host_eth, with_ip_sum (record far { ip_ttl = 63 }), eight_bytes))
    × (ip_valid (with_ip_sum (record far { ip_ttl = 63 })) ≡ true)
unfolding find_ip lpm lpm_step sr_arpcache_lookup sr_get_interface same_name find_request
handle_queued_example =
    handle_queued 100 router eth1_name far-IsIpPacket {rt = route_default} {i = eth1} (omega arith)
      refl refl refl refl refl (omega arith) (omega arith) (omega arith)
