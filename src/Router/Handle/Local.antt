-- ===== src/Router/Handle/Local.antt =====
-- IP packets for the router itself, packets that are dropped, and buffers that are overrun.
use mini_internet_computer_n.Base.{
  ℕ, ◌+◌, ◌^◌, ◌≤◌, ◌<◌, ◌≡◌, refl, ◌∙◌, ap, ◌≢◌, true, false, none, some, ◌∷◌, arith, ltb, ◌==◌,
  take, drop, length,
}
use mini_internet_computer_n.Checksum.{AreBytes, swap16}
use mini_internet_computer_n.Router.Headers.{
  Bytes, EthernetHdr, IpHdr, get_ethernet, get_ip, put_ip, put_icmp,
}
use mini_internet_computer_n.Router.State.{Name, SrIf, Sr}
use mini_internet_computer_n.Router.Interfaces.{sr_get_interface}
use mini_internet_computer_n.Router.Send.{
  port_unreachable, icmp_ethernet, icmp_ip, icmp_hdr, echo_frame, error_frame,
  send_icmp_echo_packet, send_icmp_error_packet,
}
use mini_internet_computer_n.Router.Handle.{
  ip_valid, icmp_valid, find_ip, sr_ip_packet_reply, sr_handle_ip_packet_type, sr_handlepacket,
}
use mini_internet_computer_n.Router.Handle.Replies.{
  IsReply, echo_frame-IsReply, error_frame-IsReply,
}
use mini_internet_computer_n.Router.Handle.Forward.{IsIpPacket, sent_from, error_sent, handle_local}

echo_sent :
    (sr : Sr) (interface : Name) (i : SrIf) (len dest : ℕ) (eth : EthernetHdr) (ip : IpHdr)
    (body : Bytes)
    → sr_get_interface sr interface ≡ some i
    → send_icmp_echo_packet sr interface len dest eth ip body
      ≡ some (record sr { wire = (echo_frame i len dest eth ip body, take 16 interface) ∷ sr.wire })
unfolding send_icmp_echo_packet echo_frame
echo_sent sr interface i len dest eth ip body g =
    rw (g, send_icmp_echo_packet)
      (ap some (
        sent_from sr interface i (icmp_ethernet i eth)
          (put_ip (icmp_ip len dest ip) (put_icmp (icmp_hdr 0 0 (drop 4 body)) (drop 4 body))) g
          refl))

module _ (now : ℕ) (sr : Sr) (interface : Name) {p : Bytes} {eth : EthernetHdr} {ip : IpHdr}
    {body : Bytes} (k : IsIpPacket p eth ip body) where
  -- An ICMP packet of at most 65535 bytes with a right checksum, for an interface of the router, is
  -- answered on the interface that it came in by: one frame is sent, an echo reply, which goes back
  -- to the sender from the address that was asked, with ICMP type 0, right checksums and the data
  -- that came.
  pub handle_echo :
      {i j : SrIf}
      → find_ip ip.ip_dst sr.if_list ≡ some i
      → sr_get_interface sr interface ≡ some j
      → ip.ip_p ≡ 1
      → icmp_valid body ≡ true
      → 4 ≤ length body
      → length p ≡ 34 + length body
      → length p ≤ 65535
      → AreBytes body
      → i.ip < 2 ^ 32
      → (f : Bytes) × (sr_handlepacket now sr p interface
          ≡ some (record sr { wire = (f, take 16 interface) ∷ sr.wire }))
        × IsReply (length p) j eth ip.ip_src i.ip 0 0 f
        × (drop 38 f ≡ drop 4 body)
  unfolding sr_ip_packet_reply
  handle_echo {i} {j} n g one valid four size m bytes b =
      let long : ltb (length p) 38 ≡ false = ground arith in
      let icmp : (ip.ip_p == 1) ≡ true = ground arith in
      let back =
        echo_frame-IsReply j (length p) i.ip eth ip body size four m bytes k.fits k.small b in
      (
        echo_frame j (length p) i.ip eth ip body,
        handle_local now sr interface k n
            ∙ rw (icmp, long, valid) (echo_sent sr interface j (length p) i.ip eth ip body g),
        back.0,
        back.1,
      )

  -- Any other packet of at least 38 bytes for an interface of the router is answered by "port
  -- unreachable" on the interface that it came in by: one frame is sent, which goes back to the
  -- sender from the address that was asked, with ICMP type 3, code 3 and right checksums.
  pub handle_port :
      {i j : SrIf}
      → find_ip ip.ip_dst sr.if_list ≡ some i
      → sr_get_interface sr interface ≡ some j
      → ip.ip_p ≢ 1
      → 38 ≤ length p
      → i.ip < 2 ^ 32
      → j.ip < 2 ^ 32
      → (f : Bytes) × (sr_handlepacket now sr p interface
          ≡ some (record sr { wire = (f, take 16 interface) ∷ sr.wire }))
        × IsReply (length p) j eth ip.ip_src i.ip 3 3 f
  unfolding sr_ip_packet_reply
  handle_port {i} {j} n g other l b b' =
      let no : (ip.ip_p == 1) ≡ false = ground arith in
      (
        error_frame j (length p) i.ip eth ip port_unreachable,
        handle_local now sr interface k n
            ∙ rw no (error_sent sr interface j (length p) i.ip eth ip port_unreachable l g),
        error_frame-IsReply j (length p) i.ip eth ip port_unreachable l k.fits k.small b' b
            (omega arith) (omega arith),
      )

  -- A packet of 34 to 37 bytes that is not ICMP, for an interface of the router, overruns the buffer
  -- of the error message.
  pub handle_overrun :
      {i : SrIf}
      → find_ip ip.ip_dst sr.if_list ≡ some i
      → ip.ip_p ≢ 1
      → length p < 38
      → sr_handlepacket now sr p interface ≡ none
  unfolding sr_ip_packet_reply send_icmp_error_packet
  handle_overrun n other l =
      let no : (ip.ip_p == 1) ≡ false = ground arith in
      let short : ltb (length p) 38 ≡ true = ground arith in
      handle_local now sr interface k n ∙ rw (no, short)

-- What the handlers drop without a word: a type that is neither IP nor ARP, a packet too short for
-- the headers of its type, an IP header with a wrong checksum.
pub data IsDropped (len : ℕ) (eth : EthernetHdr) (r : Bytes) : Type 0 where
  other_type : swap16 eth.ether_type ≢ 0x0806 → swap16 eth.ether_type ≢ 0x0800 → IsDropped len eth r
  short_arp : swap16 eth.ether_type ≡ 0x0806 → len < 42 → IsDropped len eth r
  short_ip : swap16 eth.ether_type ≡ 0x0800 → len < 34 → IsDropped len eth r
  bad_sum :
      (ip : IpHdr) (body : Bytes)
      → swap16 eth.ether_type ≡ 0x0800
      → get_ip r ≡ some (ip, body)
      → ip_valid ip ≡ false
      → IsDropped len eth r

-- A packet is dropped, and nothing changes, if its type is neither IP nor ARP, if it is too short
-- for the headers of its type, or if its IP checksum is wrong.
handle_dropped :
    (now : ℕ) (sr : Sr) (interface : Name) (p : Bytes) {r : Bytes} {eth : EthernetHdr}
    → get_ethernet p ≡ some (eth, r)
    → IsDropped (length p) eth r
    → sr_handlepacket now sr p interface ≡ some sr
unfolding sr_handlepacket sr_handle_ip_packet_type
handle_dropped now sr interface p e (other_type a b) = ground arith
handle_dropped now sr interface p e (short_arp a b) = ground arith
handle_dropped now sr interface p e (short_ip a b) = ground arith
handle_dropped now sr interface p e (bad_sum ip body a b c) = ground arith
