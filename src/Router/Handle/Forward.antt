-- ===== src/Router/Handle/Forward.antt =====
-- What a router does with an IP packet that is not for itself.
use mini_internet_computer_n.Base.{
  ℕ, ◌^◌, ◌<◌, ◌+◌, ◌-◌, ◌%◌, ◌≤◌, ◌<◌, ◌≡◌, refl, ◌∙◌, ap, true, false, Option, none, some, [],
  ◌∷◌, arith, ltb, lt→ltb, take, length, replicate,
}
use mini_internet_computer_n.Router.Headers.{
  Bytes, Mac, EthernetHdr, IpHdr, get_ethernet, get_ip, put_ethernet, put_ip, put_icmp,
}
use mini_internet_computer_n.Router.Headers.RoundTrip.{IsIpHdr}
use mini_internet_computer_n.Router.State.{SrIf, SrRt, ArpEntry, Sr, Name, same_mac}
use mini_internet_computer_n.Router.Interfaces.{sr_get_interface}
use mini_internet_computer_n.Router.Table.{lpm}
use mini_internet_computer_n.Router.ArpCache.{sr_arpcache_lookup}
use mini_internet_computer_n.Router.Send.{
  with_ip_sum, sr_send_packet, sr_ether_addrs_match_interface, send_icmp_error_packet,
  time_exceeded, dst_net_unreachable, IcmpError, error_frame, icmp_ethernet, icmp_ip, icmp_hdr,
  error_src,
}
use mini_internet_computer_n.Router.Handle.{
  ip_valid, less_ttl, hop_frame, ip_packet_forwarding, find_ip, send_next_hop,
  sr_ip_packet_next_hop, sr_handle_ip_packet_type, sr_handlepacket, sr_ip_packet_reply,
}
use mini_internet_computer_n.Router.Handle.Replies.{
  IsReply, error_frame-IsReply, AreSmall, frame_parts, frame_parts-put, with_ip_sum-IsIpHdr,
  with_ip_sum-valid,
}

same_mac_refl : (m : Mac) → same_mac m m ≡ true
same_mac_refl m = ground arith

-- A frame from the interface's own address is written to the wire.
pub sent_from :
    (sr : Sr) (name : Name) (i : SrIf) (h : EthernetHdr) (r : Bytes)
    → sr_get_interface sr name ≡ some i
    → h.ether_shost ≡ i.addr
    → sr_send_packet sr (put_ethernet h r) name
      ≡ record sr { wire = (put_ethernet h r, take 16 name) ∷ sr.wire }
unfolding sr_send_packet sr_ether_addrs_match_interface
sent_from sr name i h r e m =
    rw (e, sr_send_packet, sr_ether_addrs_match_interface) (rw m (rw (same_mac_refl i.addr)))

-- A buffer that holds an IP packet with a right header checksum.
pub record IsIpPacket (p : Bytes) (eth : EthernetHdr) (ip : IpHdr) (body : Bytes) : Type 0 where
  pub rest : Bytes
  pub size : 34 ≤ length p
  pub parse : get_ethernet p ≡ some (eth, rest)
  pub parse_ip : get_ip rest ≡ some (ip, body)
  pub type : eth.ether_type ≡ 0x0008
  pub fits : IsIpHdr ip
  pub small : AreSmall ip
  pub check : ip_valid ip ≡ true

-- An error is written to the wire.
pub error_sent :
    (sr : Sr) (interface : Name) (i : SrIf) (len dest : ℕ) (eth : EthernetHdr) (ip : IpHdr)
    (e : IcmpError)
    → 38 ≤ len
    → sr_get_interface sr interface ≡ some i
    → send_icmp_error_packet sr interface len dest eth ip e
      ≡ some (record sr { wire = (error_frame i len dest eth ip e, take 16 interface) ∷ sr.wire })
unfolding send_icmp_error_packet error_frame
error_sent sr interface i len dest eth ip e l g =
    let b : ltb len 38 ≡ false = ground arith in
    rw (b, g, send_icmp_error_packet)
      (ap some (
        sent_from sr interface i (icmp_ethernet i eth)
          (put_ip (icmp_ip len (error_src i dest e) ip)
            (put_icmp (icmp_hdr e.error_type e.error_code []) (replicate (len - 38) 0)))
          g refl))

module _ (now : ℕ) (sr : Sr) (interface : Name) {p : Bytes} {eth : EthernetHdr} {ip : IpHdr}
    {body : Bytes} (k : IsIpPacket p eth ip body) where
  handle_ip : sr_handlepacket now sr p interface ≡ sr_handle_ip_packet_type now sr p interface
  unfolding sr_handlepacket
  handle_ip = ground arith

  -- A packet that is for none of the interfaces goes to the next hop.
  pub handle_transit :
      find_ip ip.ip_dst sr.if_list ≡ none
      → sr_handlepacket now sr p interface
        ≡ sr_ip_packet_next_hop now sr eth ip body (length p) interface
  unfolding sr_handle_ip_packet_type ip_packet_forwarding
  handle_transit n = ground (arith, handle_ip)

  -- A packet for an interface of the router is answered.
  pub handle_local :
      {i : SrIf}
      → find_ip ip.ip_dst sr.if_list ≡ some i
      → sr_handlepacket now sr p interface
        ≡ sr_ip_packet_reply sr eth ip body (length p) interface i.ip
  unfolding sr_handle_ip_packet_type ip_packet_forwarding
  handle_local n = ground (arith, handle_ip)

  hop_sent :
      {rt : SrRt} {e : ArpEntry} {i : SrIf}
      → find_ip ip.ip_dst sr.if_list ≡ none
      → lpm sr ip.ip_dst ≡ some rt
      → sr_arpcache_lookup sr.cache rt.gw ≡ some e
      → sr_get_interface sr rt.interface ≡ some i
      → 0 < (less_ttl ip).ip_ttl
      → sr_handlepacket now sr p interface
        ≡ some (record sr {
          wire =
              (hop_frame e.mac i eth (with_ip_sum (less_ttl ip)) body, take 16 rt.interface)
              ∷ sr.wire;
        })
  unfolding sr_ip_packet_next_hop send_next_hop hop_frame
  hop_sent {rt} {i} n l c g t =
      let b : ltb 0 (less_ttl ip).ip_ttl ≡ true = lt→ltb _ _ t in
      handle_transit n
      ∙ rw (l, sr_ip_packet_next_hop)
          (rw b (
            rw (c, send_next_hop)
              (rw (g, send_next_hop) (ap some (sent_from sr rt.interface i _ _ g refl)))))

  -- The packet as the gateway gets it, with ttl `t`.
  abbrev pub Forwarded : SrRt → ArpEntry → SrIf → ℕ → Type 0
  Forwarded rt e i t =
      (f : Bytes) × (sr_handlepacket now sr p interface
        ≡ some (record sr { wire = (f, take 16 rt.interface) ∷ sr.wire }))
      × (frame_parts f
          ≡ some (
            record eth { ether_dhost = e.mac; ether_shost = i.addr },
            with_ip_sum (record ip { ip_ttl = t }),
            body,
          ))
      × (ip_valid (with_ip_sum (record ip { ip_ttl = t })) ≡ true)

  hop_Forwarded :
      {rt : SrRt} {e : ArpEntry} {i : SrIf} (t : ℕ)
      → find_ip ip.ip_dst sr.if_list ≡ none
      → lpm sr ip.ip_dst ≡ some rt
      → sr_arpcache_lookup sr.cache rt.gw ≡ some e
      → sr_get_interface sr rt.interface ≡ some i
      → (ip.ip_ttl + 255) % 256 ≡ t
      → 0 < t
      → Forwarded rt e i t
  unfolding hop_frame
  hop_Forwarded {e} {i} t n l c g same pos =
      let low : IpHdr = record ip { ip_ttl = t } in
      let hop : EthernetHdr = record eth { ether_dhost = e.mac; ether_shost = i.addr } in
      (
        hop_frame e.mac i eth (with_ip_sum low) body,
        rw same at (hop_sent n l c g (omega (arith, same))),
        frame_parts-put hop (with_ip_sum low) body (omega (arith, k.type))
            (with_ip_sum-IsIpHdr low (omega (arith, k.fits)) (omega (arith, k.small))),
        with_ip_sum-valid low,
      )

  -- A packet in transit with a ttl of at least 2, whose gateway's address is cached, is sent to the
  -- gateway from the interface of its route. The receiver reads the same packet with a ttl lower by
  -- one and a right checksum, and nothing else of the router changes.
  pub handle_forward :
      {rt : SrRt} {e : ArpEntry} {i : SrIf}
      → find_ip ip.ip_dst sr.if_list ≡ none
      → lpm sr ip.ip_dst ≡ some rt
      → sr_arpcache_lookup sr.cache rt.gw ≡ some e
      → sr_get_interface sr rt.interface ≡ some i
      → 2 ≤ ip.ip_ttl
      → Forwarded rt e i (ip.ip_ttl - 1)
  handle_forward n l c g t =
      hop_Forwarded (ip.ip_ttl - 1) n l c g (omega (arith, k.small)) (omega arith)

  -- A packet in transit that arrives with ttl 0 is not dropped: it leaves with ttl 255.
  pub handle_forward_ttl_zero :
      {rt : SrRt} {e : ArpEntry} {i : SrIf}
      → find_ip ip.ip_dst sr.if_list ≡ none
      → lpm sr ip.ip_dst ≡ some rt
      → sr_arpcache_lookup sr.cache rt.gw ≡ some e
      → sr_get_interface sr rt.interface ≡ some i
      → ip.ip_ttl ≡ 0
      → Forwarded rt e i 255
  handle_forward_ttl_zero n l c g z = hop_Forwarded 255 n l c g (omega arith) (omega arith)

  abbrev pub reports : SrIf → IpHdr → IcmpError → Option Sr
  reports i h e =
      some (record sr { wire = (error_frame i (length p) 0 eth h e, take 16 interface) ∷ sr.wire })

  -- A packet in transit of at least 38 bytes that has no route is answered by "net unreachable" on
  -- the interface that it came in by.
  handle_no_route :
      {i : SrIf}
      → find_ip ip.ip_dst sr.if_list ≡ none
      → sr_get_interface sr interface ≡ some i
      → 38 ≤ length p
      → lpm sr ip.ip_dst ≡ none
      → sr_handlepacket now sr p interface ≡ reports i ip dst_net_unreachable
  unfolding sr_ip_packet_next_hop
  handle_no_route {i} n g l none_there =
      handle_transit n
      ∙ rw (none_there, sr_ip_packet_next_hop)
          (error_sent sr interface i (length p) 0 eth ip dst_net_unreachable l g)

  -- A packet in transit of at least 38 bytes with ttl 1 is not sent on but answered by "time
  -- exceeded" on the interface that it came in by: one frame is sent, which goes back to the sender
  -- from that interface's address, with ICMP type 11, code 0 and right checksums.
  pub handle_ttl_one :
      {i : SrIf} {rt : SrRt}
      → find_ip ip.ip_dst sr.if_list ≡ none
      → sr_get_interface sr interface ≡ some i
      → 38 ≤ length p
      → lpm sr ip.ip_dst ≡ some rt
      → ip.ip_ttl ≡ 1
      → i.ip < 2 ^ 32
      → (f : Bytes) × (sr_handlepacket now sr p interface
          ≡ some (record sr { wire = (f, take 16 interface) ∷ sr.wire }))
        × IsReply (length p) i eth ip.ip_src i.ip 11 0 f
  unfolding sr_ip_packet_next_hop
  handle_ttl_one {i} {rt} n g l found one b =
      let low : (ip.ip_ttl + 255) % 256 ≡ 0 = omega arith in
      let h : IpHdr = record ip { ip_ttl = 0 } in
      (
        error_frame i (length p) 0 eth h time_exceeded,
        handle_transit n
            ∙ rw (found, sr_ip_packet_next_hop)
                (rw low (error_sent sr interface i (length p) 0 eth h time_exceeded l g)),
        error_frame-IsReply i (length p) 0 eth h time_exceeded l (omega (arith, k.fits))
            (omega (arith, k.small)) b (omega arith) (omega arith) (omega arith),
      )
