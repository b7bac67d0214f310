-- ===== src/Router/Tests/Local.antt =====
-- Packets for the router itself.
use mini_internet_computer_n.Base.{ℕ, ◌≡◌, refl, some, none, [], ◌∷◌, arith, length, take, drop}
use mini_internet_computer_n.Checksum.{cksum}
use mini_internet_computer_n.Router.Headers.{Bytes, IpHdr, load32}
use mini_internet_computer_n.Router.State.{same_name}
use mini_internet_computer_n.Router.Interfaces.{sr_get_interface}
use mini_internet_computer_n.Router.Handle.{find_ip, icmp_valid, sr_handlepacket}
use mini_internet_computer_n.Router.Handle.Replies.{IsReply}
use mini_internet_computer_n.Router.Handle.Forward.{IsIpPacket}
use mini_internet_computer_n.Router.Handle.Local.{handle_echo, handle_port, handle_overrun}
use mini_internet_computer_n.Router.Samples.{
  eth0, eth1, eth1_name, router, host_eth, ip_packet, eight_bytes, as_frame,
}

-- For eth0's address, with the protocol and the checksum given.
abbrev local : ℕ → ℕ → IpHdr
local p sum = ip_packet 64 p sum (load32 10 0 0 1)

-- An echo request with four bytes of data, right checksum included.
abbrev echo_request : Bytes
echo_request = 8 ∷ 0 ∷ 243 ∷ 249 ∷ 1 ∷ 2 ∷ 3 ∷ 4 ∷ []

abbrev echo_request_frame : Bytes
echo_request_frame = as_frame (local 1 1391) echo_request

echo-IsIpPacket : IsIpPacket echo_request_frame host_eth (local 1 1391) echo_request
unfolding cksum
echo-IsIpPacket = record {
  rest = _;
  size = omega arith;
  parse = refl;
  parse_ip = refl;
  type = refl;
  fits = omega arith;
  small = omega arith;
  check = refl;
}

handle_echo_example :
    (f : Bytes) × (sr_handlepacket 100 router echo_request_frame eth1_name
      ≡ some (record router { wire = (f, take 16 eth1_name) ∷ [] }))
    × IsReply (length echo_request_frame) eth1 host_eth (load32 192 168 1 50) eth0.ip 0 0 f
    × (drop 38 f ≡ drop 4 echo_request)
unfolding find_ip sr_get_interface same_name icmp_valid cksum
handle_echo_example =
    handle_echo 100 router eth1_name echo-IsIpPacket {i = eth0} {j = eth1} refl refl refl refl
      (omega arith) refl (omega arith) (omega arith) (omega arith)

udp-IsIpPacket :
    IsIpPacket (as_frame (local 17 62830) eight_bytes) host_eth (local 17 62830) eight_bytes
unfolding cksum
udp-IsIpPacket = record {
  rest = _;
  size = omega arith;
  parse = refl;
  parse_ip = refl;
  type = refl;
  fits = omega arith;
  small = omega arith;
  check = refl;
}

handle_port_example :
    (f : Bytes) × (sr_handlepacket 100 router (as_frame (local 17 62830) eight_bytes) eth1_name
      ≡ some (record router { wire = (f, take 16 eth1_name) ∷ [] }))
    × IsReply 42 eth1 host_eth (load32 192 168 1 50) eth0.ip 3 3 f
unfolding find_ip sr_get_interface same_name
handle_port_example =
    handle_port 100 router eth1_name udp-IsIpPacket {i = eth0} {j = eth1} refl refl (omega arith)
      (omega arith) (omega arith) (omega arith)

-- Two bytes behind the IP header: 36 bytes in all.
abbrev two_bytes : Bytes
two_bytes = 1 ∷ 2 ∷ []

short-IsIpPacket :
    IsIpPacket (as_frame (local 17 62830) two_bytes) host_eth (local 17 62830) two_bytes
unfolding cksum
short-IsIpPacket = record {
  rest = _;
  size = omega arith;
  parse = refl;
  parse_ip = refl;
  type = refl;
  fits = omega arith;
  small = omega arith;
  check = refl;
}

handle_overrun_example :
    sr_handlepacket 100 router (as_frame (local 17 62830) two_bytes) eth1_name ≡ none
unfolding find_ip
handle_overrun_example =
    handle_overrun 100 router eth1_name short-IsIpPacket {i = eth0} refl (omega arith) (omega arith)
